-- ===== src/Evidence/Storage/Laws.antt =====
-- What a published object promises.
use defiant_fleet_ops.Base.{
  ℕ, ◌≡◌, refl, true, some, List, [], ◌∷◌, length, ok, arith, ==_refl, Option-cases, inl, inr,
  value_or,
}
use defiant_fleet_ops.Text.{Text, text_eq}
use defiant_fleet_ops.Evidence.Storage.{
  StoredEvidence, Objects, object_at, key_of, checked_path, read, reference_of, put,
}

pub text_eq_refl : (s : Text) → text_eq s s ≡ true
text_eq_refl [] = refl
text_eq_refl (c ∷ s) = ground (arith, text_eq_refl s, ==_refl c)

pub text_eq-≡ : (s t : Text) → text_eq s t ≡ true → s ≡ t
text_eq-≡ [] [] h = refl
text_eq-≡ [] (d ∷ t) h = cc
text_eq-≡ (c ∷ s) [] h = cc
text_eq-≡ (c ∷ s) (d ∷ t) h = ground (arith, text_eq-≡ s t)

module _ (digest : List ℕ → Text) (objects : Objects) (org : Text) where
  -- Publication that succeeds returns a reference by which the published bytes are read back.
  pub put-read :
      (content : List ℕ) (r : StoredEvidence) (objects' : Objects)
      → put digest objects org content ≡ ok (r, objects')
      → read digest objects' org r ≡ ok content
  unfolding put read object_at checked_path
  put-read content r objects' h =
      let ref = reference_of digest org content in
      elim (Option-cases (object_at objects ref.key)) [
        | inl absent ↦ ground (
          arith,
          text_eq_refl (key_of org (digest content)),
          text_eq_refl (digest content),
          ==_refl (length content),
        )
        | inr (present, found) ↦
            let bytes = value_or [] (read digest objects org ref) in
            let equal : bytes ≡ content = text_eq-≡ bytes content (ground arith) in ground arith
      ]

  -- Publication never changes or removes an object that is already stored.
  pub put-keeps :
      (content : List ℕ) (r : StoredEvidence) (objects' : Objects) (key : Text) (stored : List ℕ)
      → put digest objects org content ≡ ok (r, objects')
      → object_at objects key ≡ some stored
      → object_at objects' key ≡ some stored
  unfolding put object_at
  put-keeps content r objects' key stored h present = ground (
    arith,
    λ (e : text_eq (key_of org (digest content)) key ≡ true).
        text_eq-≡ (key_of org (digest content)) key e,
  )
