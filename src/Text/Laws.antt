-- ===== src/Text/Laws.antt =====
-- Laws of the text operations.
use qpedia.Prelude.{◌+◌, ◌++◌, ◌≡◌, refl, ◌↔◌, true, [], ◌∷◌, arith}
use qpedia.Text.{Text, text_eq, byte_len}

pub text_eq→eq : (s t : Text) → text_eq s t ≡ true → s ≡ t
unfolding text_eq
text_eq→eq [] [] h = refl
text_eq→eq (x ∷ s) (y ∷ t) h = ground (arith, text_eq→eq s t)
text_eq→eq [] (y ∷ t) h = cc
text_eq→eq (x ∷ s) [] h = cc

pub text_eq_refl : (s : Text) → text_eq s s ≡ true
unfolding text_eq
text_eq_refl [] = refl
text_eq_refl (x ∷ s) = ground (arith, text_eq_refl s)

pub text_eq_iff : (s t : Text) → (text_eq s t ≡ true) ↔ (s ≡ t)
text_eq_iff s t = (text_eq→eq s t, λ e. rw e (text_eq_refl t))

pub byte_len-append : (s t : Text) → byte_len (s ++ t) ≡ byte_len s + byte_len t
unfolding byte_len
byte_len-append [] t = omega arith
byte_len-append (c ∷ s) t = omega (arith, byte_len-append s t)
