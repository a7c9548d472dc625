-- ===== src/Labels/Publication.antt =====
-- What a publication leaves at its own path and at the others.
use mathlib.Core.Path.{subst}
use defiant_fleet_ops.Base.{
  ℕ, ◌≤◌, ◌≡◌, ◌⊎◌, inl, inr, refl, ap, ◌∙◌, some_same, arith, true, false, not, ◌&&◌, none, some,
  List, [], ◌∷◌, leb, length, Bool-cases, ==_refl, Option-cases, ok,
}
use defiant_fleet_ops.Text.{Text, text_eq}
use defiant_fleet_ops.Labels.{OutputFormat, png, pdf}
use defiant_fleet_ops.Labels.Store.{
  Fault, clear, is_early, Location, location_eq, format_eq, Artifact, artifact_max, artifact_at,
  published, publish, read,
}

pub text_eq_same : (a b : Text) → text_eq a b ≡ true → a ≡ b
text_eq_same [] [] h = refl
text_eq_same [] (c ∷ b) h = ground arith
text_eq_same (c ∷ a) [] h = ground arith
text_eq_same (c ∷ a) (e ∷ b) h =
    let first : c ≡ e = ground (arith, h) in
    let rest = text_eq_same a b (ground (arith, h)) in cc (first, rest)

pub text_eq_refl : (a : Text) → text_eq a a ≡ true
text_eq_refl [] = refl
text_eq_refl (c ∷ a) = ground (arith, text_eq_refl a)

format_eq_same : (a b : OutputFormat) → format_eq a b ≡ true → a ≡ b
format_eq_same png png h = refl
format_eq_same pdf pdf h = refl
format_eq_same OutputFormat.zpl OutputFormat.zpl h = refl
format_eq_same png pdf h = ground arith
format_eq_same png OutputFormat.zpl h = ground arith
format_eq_same pdf png h = ground arith
format_eq_same pdf OutputFormat.zpl h = ground arith
format_eq_same OutputFormat.zpl png h = ground arith
format_eq_same OutputFormat.zpl pdf h = ground arith

format_eq_refl : (a : OutputFormat) → format_eq a a ≡ true
format_eq_refl png = refl
format_eq_refl pdf = refl
format_eq_refl OutputFormat.zpl = refl

pub location_eq_refl : (a : Location) → location_eq a a ≡ true
location_eq_refl a = rw (==_refl a.org_id, ==_refl a.job_id, format_eq_refl a.extension) refl

pub location_eq_same : (a b : Location) → location_eq a b ≡ true → a ≡ b
location_eq_same a b h =
    let org : a.org_id ≡ b.org_id = ground (arith, h) in
    let job : a.job_id ≡ b.job_id = ground (arith, h) in
    let ext = format_eq_same a.extension b.extension (ground (arith, h)) in cc (org, job, ext)

-- A publication writes nothing, or it writes at a path that has nothing yet.
published-cases :
    (files : List Artifact) (fault : Fault) (path : Location) (content : List ℕ)
    → (published files fault path content ≡ files)
      ⊎ ((artifact_at files path ≡ none)
          × (length content ≤ artifact_max)
          × (published files fault path content
              ≡ record { path = path; content = content } ∷ files))
unfolding published
published-cases files fault path content =
    elim (Bool-cases (leb (length content) artifact_max && not (is_early fault))) [
      | inr stopped ↦ inl (rw stopped refl)
      | inl linked ↦ elim (Option-cases (artifact_at files path)) [
        | inr (present, there) ↦ inl (rw (linked, there) refl)
        | inl absent ↦ inr (absent, ground (arith, linked), rw (linked, absent) refl)
      ]
    ]

absent_other :
    (files : List Artifact) (path p : Location) (c : List ℕ)
    → artifact_at files path ≡ none
    → artifact_at files p ≡ some c
    → location_eq path p ≡ false
absent_other files path p c absent there = elim (Bool-cases (location_eq path p)) [
  | inr other ↦ other
  | inl here ↦
      let same = location_eq_same path p here in
      let none_there = subst (λ (x : Location). artifact_at files x ≡ none) same absent in
      ground (arith, none_there, there)
]

-- The bytes that a path has stay there.
pub published-kept :
    (files : List Artifact) (fault : Fault) (path p : Location) (content c : List ℕ)
    → artifact_at files p ≡ some c
    → artifact_at (published files fault path content) p ≡ some c
unfolding artifact_at
published-kept files fault path p content c h = elim (published-cases files fault path content) [
  | inl same ↦ rw same h
  | inr (absent, bounded, linked) ↦
      let other = absent_other files path p c absent h in rw linked (rw other h)
]

-- What a path has after a publication, it had before, or it is what was published.
pub published-origin :
    (files : List Artifact) (fault : Fault) (path p : Location) (content c : List ℕ)
    → artifact_at (published files fault path content) p ≡ some c
    → (artifact_at files p ≡ some c) ⊎ ((path ≡ p) × (content ≡ c) × (length c ≤ artifact_max))
unfolding artifact_at
published-origin files fault path p content c h = elim (published-cases files fault path content) [
  | inl same ↦ inl (rw same at h)
  | inr (absent, bounded, linked) ↦ elim (Bool-cases (location_eq path p)) [
    | inr other ↦ inl (rw other at (rw linked at h))
    | inl here ↦
        let found : some content ≡ some c = rw here at (rw linked at h) in
        let same = some_same content c found in
        inr (
          location_eq_same path p here,
          same,
          subst (λ (x : List ℕ). length x ≤ artifact_max) same bounded,
        )
  ]
]

-- A publication that succeeded has its bytes at its path.
pub publish-published :
    (sha256 : List ℕ → Text) (files : List Artifact) (fault : Fault) (path : Location)
    (content : List ℕ) (digest : Text)
    → publish sha256 files fault path content ≡ ok digest
    → (artifact_at (published files fault path content) path ≡ some content)
      × (digest ≡ sha256 content)
unfolding publish published artifact_at
publish-published sha256 files fault path content digest h =
    elim (Option-cases (artifact_at files path)) [
      | inl absent ↦
          let linked : (leb (length content) artifact_max && not (is_early fault)) ≡ true =
            ground (arith, absent) in
          (rw (linked, absent, location_eq_refl path) refl, ground (arith, absent))
      | inr (present, there) ↦
          let linked : (leb (length content) artifact_max && not (is_early fault)) ≡ true =
            ground (arith, there) in
          let same = text_eq_same present content (ground (arith, there)) in
          (rw (linked, there) (rw there (ap some same)), ground (arith, there))
    ]

-- A retry that nothing disturbs succeeds where the path is free or has the same bytes.
pub publish-clear :
    (sha256 : List ℕ → Text) (files : List Artifact) (path : Location) (content : List ℕ)
    → length content ≤ artifact_max
    → ((c : List ℕ) → artifact_at files path ≡ some c → c ≡ content)
    → publish sha256 files clear path content ≡ ok (sha256 content)
unfolding publish
publish-clear sha256 files path content bounded own =
    let small : leb (length content) artifact_max ≡ true = ground (arith, bounded) in
    elim (Option-cases (artifact_at files path)) [
      | inl absent ↦ rw (small, absent) refl
      | inr (present, there) ↦
          let here : artifact_at files path ≡ some content = there ∙ ap some (own present there) in
          rw (small, here) (rw (small, text_eq_refl content) refl)
    ]

-- What was published reads back.
pub read-published :
    (sha256 : List ℕ → Text) (files : List Artifact) (path : Location) (content : List ℕ)
    → artifact_at files path ≡ some content
    → length content ≤ artifact_max
    → read sha256 files clear path (sha256 content) ≡ ok content
unfolding read
read-published sha256 files path content there bounded =
    let small : leb (length content) artifact_max ≡ true = ground (arith, bounded) in
    let same = text_eq_refl (sha256 content) in ground (arith, there, small, same)
