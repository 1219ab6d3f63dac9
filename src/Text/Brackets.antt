-- ===== src/Text/Brackets.antt =====
-- Links in a text: `[[`, what is inside, `]]`.
use qpedia.Prelude.{◌≡◌, sym, ap, ◌∙◌, ◌++◌, append_assoc}
use qpedia.Text.{Text, codes, trim}

-- A link stands in the text between its brackets, perhaps with white space around it.
pub record IsLinkIn (s : Text) (link : Text) : Type 0 where
  pub before : Text
  pub inside : Text
  pub after : Text
  pub bracketed : s ≡ before ++ (codes "[[" ++ (inside ++ (codes "]]" ++ after)))
  pub trimmed : link ≡ trim inside

-- What stands in the rest of a text stands in the text.
pub IsLinkIn-later :
    (s read rest : Text) → s ≡ read ++ rest → (link : Text) → IsLinkIn rest link → IsLinkIn s link
IsLinkIn-later s read rest e link l = record {
  before = read ++ l.before;
  inside = l.inside;
  after = l.after;
  bracketed =
      e
      ∙ ap (λ t. read ++ t) l.bracketed
      ∙ sym (append_assoc read l.before (codes "[[" ++ (l.inside ++ (codes "]]" ++ l.after))));
  trimmed = l.trimmed;
}

-- A text up to the end of a link, and its rest.
pub regroup :
    (before inside rest : Text)
    → before ++ (codes "[[" ++ (inside ++ (codes "]]" ++ rest)))
      ≡ (before ++ (codes "[[" ++ (inside ++ codes "]]"))) ++ rest
regroup before inside rest =
    ap (λ t. before ++ (codes "[[" ++ t)) (sym (append_assoc inside (codes "]]") rest))
    ∙ sym (append_assoc before (codes "[[" ++ (inside ++ codes "]]")) rest)
