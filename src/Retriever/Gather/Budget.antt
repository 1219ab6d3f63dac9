-- ===== src/Retriever/Gather/Budget.antt =====
-- The bounds that the tool loop keeps.
use qpedia.Prelude.{
  ℕ, zero, suc, ◌+◌, ◌-◌, ◌*◌, ◌≤◌, ◌<◌, max, ◌≡◌, refl, sym, ap, Bool, true, false, ◌||◌,
  Bool-cases, inl, inr, Option, none, some, Option-cases, List, [], ◌∷◌, ◌++◌, All, take, length,
  ok, Result-cases, if◌then◌else◌, subst, arith,
}
use mathlib.Core.Option.{some-injective}
use qpedia.Text.{Text, codes, text_eq, byte_len, char_len, sum_of}
use qpedia.Llm.{ToolCall, Message, str_argument}
use qpedia.Retriever.Gather.{
  GatheredPage, View, Env, Loaded, Turn, max_pages_loaded, max_context_bytes, or_else,
  extract_title, is_loaded, insert_page, track, readable_page, read_tool, execute_gather_tool,
  is_full, after_tool, run_call, and_then, run_calls, turn_end, begin_turn, run_turns,
}
use qpedia.Retriever.Gather.Access.{IsReadable, readable_page-MayRead, All-insert_page}

abbrev pub page_bytes : GatheredPage → ℕ
page_bytes p = byte_len p.content

-- The most that the loop loads: it stops at the first page that takes it to 30000 bytes, and that page
-- may have 30000 characters of four bytes.
abbrev pub most_bytes : ℕ
most_bytes = 120000

pub record IsLoaded (v : View) (loaded : Loaded) : Type 0 where
  pub readable : All (IsReadable v) loaded.pages
  pub few : length loaded.pages ≤ max_pages_loaded
  pub counted : sum_of page_bytes loaded.pages ≡ loaded.total_bytes
  pub small : loaded.total_bytes ≤ most_bytes

char_len-le : (c : ℕ) → char_len c ≤ 4
char_len-le c = ground arith

byte_len-take-le : (n : ℕ) (s : Text) → byte_len (take n s) ≤ 4 * n
unfolding byte_len
byte_len-take-le zero s = omega arith
byte_len-take-le (suc n) [] = omega arith
byte_len-take-le (suc n) (c ∷ s) = omega (arith, char_len-le c, byte_len-take-le n s)

insert_page-new :
    (p : GatheredPage) (pages : List GatheredPage)
    → is_loaded p.path pages ≡ false
    → insert_page p pages ≡ pages ++ p ∷ []
unfolding insert_page is_loaded
insert_page-new p [] h = refl
insert_page-new p (q ∷ pages) h = elim (Bool-cases (text_eq q.path p.path)) [
  | inl e ↦ cc (rw (is_loaded, e) at h)
  | inr e ↦
      rw (insert_page, e) (ap (λ more. q ∷ more) (insert_page-new p pages (rw (is_loaded, e) at h)))
]

sum_of-append :
    (pages : List GatheredPage) (p : GatheredPage)
    → sum_of page_bytes (pages ++ p ∷ []) ≡ sum_of page_bytes pages + page_bytes p
sum_of-append [] p = omega arith
sum_of-append (q ∷ pages) p = omega (arith, sum_of-append pages p)

length-snoc :
    (pages : List GatheredPage) (p : GatheredPage) → length (pages ++ p ∷ []) ≡ suc (length pages)
length-snoc [] p = refl
length-snoc (q ∷ pages) p = ap (λ n. suc n) (length-snoc pages p)

not_full :
    (loaded : Loaded)
    → is_full loaded ≡ false
    → (length loaded.pages < max_pages_loaded) × (loaded.total_bytes < max_context_bytes)
unfolding is_full
not_full loaded h = (ground arith, ground arith)

bytes_bound :
    (n m : ℕ)
    → n < max_context_bytes
    → m ≤ 4 * max (max_context_bytes - n) 1024
    → n + m ≤ most_bytes
bytes_bound n m h k = omega arith

module _ (env : Env) (v : View) where
  track-IsLoaded :
      (path content : Text) (loaded : Loaded)
      → readable_page v path ≡ ok content
      → is_full loaded ≡ false
      → IsLoaded v loaded
      → IsLoaded v (track path content loaded)
  unfolding track
  track-IsLoaded path content loaded h free l = elim (Bool-cases (is_loaded path loaded.pages)) [
    | inl e ↦ rw (track, e) l
    | inr e ↦
        rw (track, e)
          (record {
            readable = All-insert_page (IsReadable v) page loaded.pages readable l.readable;
            few =
                subst (λ pages. length pages ≤ max_pages_loaded) (sym (added e))
                  (omega (arith, length-snoc loaded.pages page, (not_full loaded free).0));
            counted =
                subst (λ pages. sum_of page_bytes pages ≡ loaded.total_bytes + page_bytes page)
                  (sym (added e)) (omega (arith, sum_of-append loaded.pages page, l.counted));
            small =
                bytes_bound loaded.total_bytes (page_bytes page) (not_full loaded free).1
                  (byte_len-take-le (max (max_context_bytes - loaded.total_bytes) 1024) content);
          })
  ]
    where
      page : GatheredPage
      page = record {
        path = path;
        title = or_else path (extract_title content);
        content = take (max (max_context_bytes - loaded.total_bytes) 1024) content;
      }

      readable : IsReadable v page
      readable = record {
        full = content;
        chars = max (max_context_bytes - loaded.total_bytes) 1024;
        may_read = readable_page-MayRead v path content h;
        part = refl;
      }

      added :
          is_loaded path loaded.pages ≡ false
          → insert_page page loaded.pages ≡ loaded.pages ++ page ∷ []
      added e = insert_page-new page loaded.pages e

  read_tool-IsLoaded :
      (loaded : Loaded) (o : Option Text)
      → is_full loaded ≡ false
      → IsLoaded v loaded
      → IsLoaded v (read_tool v loaded o).0
  unfolding read_tool
  read_tool-IsLoaded loaded none free l = l
  read_tool-IsLoaded loaded (some path) free l = elim (Result-cases (readable_page v path)) [
    | inl (content, e) ↦ rw (read_tool, e) (track-IsLoaded path content loaded e free l)
    | inr (x, e) ↦ rw (read_tool, e) l
  ]

  execute_gather_tool-IsLoaded :
      (call : ToolCall) (loaded : Loaded)
      → is_full loaded ≡ false
      → IsLoaded v loaded
      → IsLoaded v (execute_gather_tool env v call loaded).0
  unfolding execute_gather_tool
  execute_gather_tool-IsLoaded call loaded free l =
      elim (Bool-cases (text_eq call.name (codes "search_wiki"))) [
        | inl a ↦ rw (execute_gather_tool, a) l
        | inr a ↦ elim (Bool-cases (text_eq call.name (codes "read_page"))) [
          | inl b ↦
              rw (execute_gather_tool, a, b)
                (read_tool-IsLoaded loaded (str_argument (codes "path") call.arguments) free l)
          | inr b ↦ elim (Bool-cases (text_eq call.name (codes "follow_links"))) [
            | inl c ↦ rw (execute_gather_tool, a, b, c) l
            | inr c ↦ rw (execute_gather_tool, a, b, c) l
          ]
        ]
      ]

  -- The loop goes on only while there is room.
  HasRoom : Turn × Bool → Type 0
  HasRoom (t, stopped) =
      IsLoaded v t.loaded
      × (stopped ≡ false → is_full t.loaded ≡ false)
      × (t.done_signaled ≡ false → is_full t.loaded ≡ false)

  run_call-HasRoom :
      (call : ToolCall) (t : Turn)
      → is_full t.loaded ≡ false
      → IsLoaded v t.loaded
      → HasRoom (run_call env v call t)
  unfolding run_call HasRoom after_tool
  run_call-HasRoom call t free l = elim (Bool-cases (text_eq call.name (codes "done"))) [
    | inl e ↦ rw (run_call, e) (l, λ _. free, λ _. free)
    | inr e ↦
        rw (run_call, e)
          (
            execute_gather_tool-IsLoaded call t.loaded free l,
            λ h. h,
            λ h. or_false t.done_signaled _ h,
          )
  ]
    where
      or_false : (a b : Bool) → (a || b) ≡ false → b ≡ false
      or_false a b h = ground arith

  IsGood : Turn → Type 0
  IsGood t = IsLoaded v t.loaded × (t.done_signaled ≡ false → is_full t.loaded ≡ false)

  run_calls-IsGood :
      (calls : List ToolCall) (t : Turn)
      → is_full t.loaded ≡ false
      → IsLoaded v t.loaded
      → IsGood (run_calls env v calls t)
  unfolding run_calls IsGood HasRoom
  run_calls-IsGood [] t free l = (l, λ _. free)
  run_calls-IsGood (call ∷ calls) t free l =
      go (run_call env v call t) (run_call-HasRoom call t free l) (λ u. run_calls-IsGood calls u)
    where
      go :
          (p : Turn × Bool)
          → HasRoom p
          → ((u : Turn)
              → is_full u.loaded ≡ false
              → IsLoaded v u.loaded
              → IsGood (run_calls env v calls u))
          → IsGood (and_then p (run_calls env v calls))
      go (u, true) (m, room, good) more = (m, good)
      go (u, false) (m, room, good) more = more u (room refl) m

  turn_end-IsLoaded :
      (t : Turn) (more : Turn → Option Loaded) (loaded : Loaded)
      → IsGood t
      → (is_full t.loaded ≡ false → more t ≡ some loaded → IsLoaded v loaded)
      → turn_end t more ≡ some loaded
      → IsLoaded v loaded
  unfolding IsGood
  turn_end-IsLoaded t more loaded (l, good) later = go t.done_signaled good
    where
      go :
          (d : Bool)
          → (d ≡ false → is_full t.loaded ≡ false)
          → (if d then some t.loaded else more t) ≡ some loaded
          → IsLoaded v loaded
      go true free h = subst (IsLoaded v) (some-injective _ _ h) l
      go false free h = later (free refl) h

  -- The tool loop, started with room left, ends with at most 8 pages, each a first part of a page that
  -- the caller may read, whose bytes together are what was counted and at most 120000. The cap of 30000
  -- bytes only stops further calls: the page that reaches it may have 30000 characters.
  pub run_turns-IsLoaded :
      (turns : ℕ) (messages : List Message) (start loaded : Loaded)
      → is_full start ≡ false
      → IsLoaded v start
      → run_turns env v turns messages start ≡ some loaded
      → IsLoaded v loaded
  unfolding run_turns IsGood
  run_turns-IsLoaded zero messages start loaded free l h =
      subst (IsLoaded v) (some-injective _ _ h) l
  run_turns-IsLoaded (suc turns) messages start loaded free l h =
      elim (Option-cases (env.llm messages)) [
        | inl e ↦ cc (rw (run_turns, e) at h)
        | inr ((content, []), e) ↦
            subst (IsLoaded v) (some-injective _ _ (rw (run_turns, e) at h)) l
        | inr ((content, call ∷ calls), e) ↦
            let begun = begin_turn messages content (call ∷ calls) start in
            let t = run_calls env v (call ∷ calls) begun in
            let good = run_calls-IsGood (call ∷ calls) begun free l in
            turn_end-IsLoaded t (λ u. run_turns env v turns u.messages u.loaded) loaded good
              (λ room k. run_turns-IsLoaded turns t.messages t.loaded loaded room good.0 k)
              (rw (run_turns, e) at h)
      ]
