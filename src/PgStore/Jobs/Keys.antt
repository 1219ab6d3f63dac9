-- ===== src/PgStore/Jobs/Keys.antt =====
-- The keys of the table `jobs` are distinct, so that an update changes one row.
use qpedia.Prelude.{
  ℕ, suc, ◌<◌, ◌∙◌, ◌≡◌, ◌≢◌, refl, ap, false, Option, none, some, List, [], ◌∷◌, ◌++◌, map, arith,
  ◌==◌, if◌then◌else◌, All, All-append, All-map, Any, here, there,
}
use mathlib.Core.Option
use mathlib.Core.List.{map-append}
use qpedia.Text.{Text}
use qpedia.PgStore.Jobs.{
  Row, Table, Event, enqueues, claims, completes, fails, step, run, first_due, update_row, find_row,
  leased, claim_row, retried, killed, enqueue,
}

abbrev pub keys : List Row → List ℕ
keys rows = map (λ r. r.id) rows

abbrev pub IsDistinct : List ℕ → Type 0
IsDistinct [] = Unit
IsDistinct (k ∷ ks) = All (λ j. j ≢ k) ks × IsDistinct ks

pub record IsValid (t : Table) : Type 0 where
  pub distinct : IsDistinct (keys t.rows)
  pub fresh : All (λ k. k < t.next_id) (keys t.rows)

-- `f` keeps the key.
abbrev pub KeepsKey : (Row → Row) → Type 0
KeepsKey f = (r : Row) → (f r).id ≡ r.id

pub keys-update_row :
    (k : ℕ) (f : Row → Row) (rows : List Row) → KeepsKey f → keys (update_row k f rows) ≡ keys rows
unfolding update_row
keys-update_row k f [] h = refl
keys-update_row k f (r ∷ rows) h = ground (arith, h r, keys-update_row k f rows h)

pub find_row-update_row :
    (k : ℕ) (f : Row → Row) (j : ℕ) (rows : List Row)
    → KeepsKey f
    → find_row j (update_row k f rows)
      ≡ (if k == j then Option.map f (find_row j rows) else find_row j rows)
unfolding update_row find_row
find_row-update_row k f j [] h = ground arith
find_row-update_row k f j (r ∷ rows) h = ground (arith, h r, find_row-update_row k f j rows h)

no_key :
    (k : ℕ) (r : Row) (rows : List Row)
    → All (λ j. j ≢ k) (keys rows)
    → Any (λ s. s ≡ r) rows
    → r.id ≢ k
no_key k r [] h m p = elim m [ ]
no_key k r (s ∷ rows) (h, hs) (here e) p = h (ap (λ (x : Row). x.id) e ∙ p)
no_key k r (s ∷ rows) (h, hs) (there m) p = no_key k r rows hs m p

own_key : (r : Row) (rows : List Row) → find_row r.id (r ∷ rows) ≡ some r
unfolding find_row
own_key r rows = ground arith

other_key : (j k : ℕ) → j ≢ k → (k == j) ≡ false
other_key j k h = ground arith

pub find_row_of_listed :
    (r : Row) (rows : List Row)
    → IsDistinct (keys rows)
    → Any (λ s. s ≡ r) rows
    → find_row r.id rows ≡ some r
unfolding find_row
find_row_of_listed r [] h m = elim m [ ]
find_row_of_listed r (s ∷ rows) (h, hs) (here e) = rw e (own_key r rows)
find_row_of_listed r (s ∷ rows) (h, hs) (there m) =
    rw (other_key r.id s.id (no_key s.id r rows h m)) (find_row_of_listed r rows hs m)

fresh-IsDistinct :
    (n : ℕ) (ks : List ℕ) → All (λ k. k < n) ks → IsDistinct ks → IsDistinct (ks ++ n ∷ [])
fresh-IsDistinct n [] h d = (tt, tt)
fresh-IsDistinct n (k ∷ ks) (h, hs) (d, ds) =
    (All-append (λ j. j ≢ k) ks (n ∷ []) d ((λ e. omega arith), tt), fresh-IsDistinct n ks hs ds)

update-IsValid :
    (k : ℕ) (f : Row → Row) (t : Table)
    → KeepsKey f
    → IsValid t
    → IsValid (record t { rows = update_row k f t.rows })
update-IsValid k f t h v = record {
  distinct = rw (keys-update_row k f t.rows h) v.distinct;
  fresh = rw (keys-update_row k f t.rows h) v.fresh;
}

pub leased-KeepsKey :
    (now : ℕ) (worker_id : Text) (lease_ms : ℕ) → KeepsKey (leased now worker_id lease_ms)
unfolding leased
leased-KeepsKey now worker_id lease_ms r = refl

claim_row-IsValid :
    (now : ℕ) (worker_id : Text) (lease_ms : ℕ) (t : Table) (o : Option Row)
    → IsValid t
    → IsValid (claim_row now worker_id lease_ms t o).0
unfolding claim_row
claim_row-IsValid now w l t none v = v
claim_row-IsValid now w l t (some r) v =
    update-IsValid r.id (leased now w l) t (leased-KeepsKey now w l) v

-- Every event keeps the keys distinct and below `next_id`.
pub step-IsValid : (e : Event) (t : Table) → IsValid t → IsValid (step e t).0
unfolding step
step-IsValid (enqueues tenant job) t v =
    unfold enqueue in
    record {
      distinct = rw map-append (fresh-IsDistinct t.next_id (keys t.rows) v.fresh v.distinct);
      fresh = rw map-append (
          All-append (λ k. k < suc t.next_id) (keys t.rows) (t.next_id ∷ [])
            (All-map (λ k (h : k < t.next_id). omega arith) (keys t.rows) v.fresh)
            (omega arith, tt));
    }
step-IsValid (claims now w l) t v = claim_row-IsValid now w l t (first_due now t.rows) v
step-IsValid (completes now id) t v = update-IsValid id _ t (λ r. refl) v
step-IsValid (fails now id msg none) t v =
    update-IsValid id (killed now msg) t (λ r. unfold killed in refl) v
step-IsValid (fails now id msg (some d)) t v =
    update-IsValid id (retried now msg d) t (λ r. unfold retried in refl) v

-- Whatever the workers and the server ask of a valid table, its keys stay distinct and new.
pub run-IsValid : (es : List Event) (t : Table) → IsValid t → IsValid (run es t)
unfolding run
run-IsValid [] t v = v
run-IsValid (e ∷ es) t v = run-IsValid es (step e t).0 (step-IsValid e t v)
