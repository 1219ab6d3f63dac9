-- ===== src/Api/RateLimit/Buckets.antt =====
-- The bucket that is found after one is written.
use qpedia.Prelude.{
  ◌≡◌, refl, sym, ap, subst, ◌∙◌, inl, inr, true, false, some, List, [], ◌∷◌, Bool-cases,
}
use qpedia.Text.{Text, text_eq}
use qpedia.Text.Laws.{text_eq→eq, text_eq_refl}
use qpedia.Api.RateLimit.{Bucket, bucket_of, put_bucket}

pub bucket_here :
    (a t : Text) (b : Bucket) (bs : List (Text × Bucket))
    → text_eq t a ≡ true
    → bucket_of a ((t, b) ∷ bs) ≡ some b
unfolding bucket_of
bucket_here a t b bs e = rw e refl

pub bucket_later :
    (a t : Text) (b : Bucket) (bs : List (Text × Bucket))
    → text_eq t a ≡ false
    → bucket_of a ((t, b) ∷ bs) ≡ bucket_of a bs
unfolding bucket_of
bucket_later a t b bs n = rw n refl

pub put_here :
    (a t : Text) (b c : Bucket) (bs : List (Text × Bucket))
    → text_eq t a ≡ true
    → put_bucket a b ((t, c) ∷ bs) ≡ (t, b) ∷ bs
unfolding put_bucket
put_here a t b c bs e = rw e refl

pub put_later :
    (a t : Text) (b c : Bucket) (bs : List (Text × Bucket))
    → text_eq t a ≡ false
    → put_bucket a b ((t, c) ∷ bs) ≡ (t, c) ∷ put_bucket a b bs
unfolding put_bucket
put_later a t b c bs e = rw e refl

pub bucket_of-put_bucket_same :
    (a : Text) (b : Bucket) (bs : List (Text × Bucket)) → bucket_of a (put_bucket a b bs) ≡ some b
unfolding put_bucket
bucket_of-put_bucket_same a b [] = bucket_here a a b [] (text_eq_refl a)
bucket_of-put_bucket_same a b ((t, c) ∷ bs) = elim (Bool-cases (text_eq t a)) [
  | inl e ↦ ap (bucket_of a) (put_here a t b c bs e) ∙ bucket_here a t b bs e
  | inr e ↦
      ap (bucket_of a) (put_later a t b c bs e)
      ∙ bucket_later a t c (put_bucket a b bs) e
      ∙ bucket_of-put_bucket_same a b bs
]

pub past_first :
    (a u : Text) (c : Bucket) (bs cs : List (Text × Bucket))
    → bucket_of a bs ≡ bucket_of a cs
    → bucket_of a ((u, c) ∷ bs) ≡ bucket_of a ((u, c) ∷ cs)
past_first a u c bs cs e = elim (Bool-cases (text_eq u a)) [
  | inl q ↦ bucket_here a u c bs q ∙ sym (bucket_here a u c cs q)
  | inr q ↦ bucket_later a u c bs q ∙ e ∙ sym (bucket_later a u c cs q)
]

pub bucket_of-put_bucket_other :
    (a t : Text) (b : Bucket) (bs : List (Text × Bucket))
    → text_eq t a ≡ false
    → bucket_of a (put_bucket t b bs) ≡ bucket_of a bs
unfolding put_bucket
bucket_of-put_bucket_other a t b [] n = bucket_later a t b [] n
bucket_of-put_bucket_other a t b ((u, c) ∷ bs) n = elim (Bool-cases (text_eq u t)) [
  | inl e ↦
      let m = subst (λ v. text_eq v a ≡ false) (sym (text_eq→eq u t e)) n in
      ap (bucket_of a) (put_here t u b c bs e)
      ∙ bucket_later a u b bs m
      ∙ sym (bucket_later a u c bs m)
  | inr e ↦
      ap (bucket_of a) (put_later t u b c bs e)
      ∙ past_first a u c (put_bucket t b bs) bs (bucket_of-put_bucket_other a t b bs n)
]
