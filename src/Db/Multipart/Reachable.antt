-- ===== src/Db/Multipart/Reachable.antt =====
-- The keys of the multipart tables, through sequences of the statements on uploads and parts.
use mathlib.Core.Option.{some-injective}
use cloodsy_s.Prelude.{
  ℕ, ◌≤◌, ◌==◌, ==_iff, ◌≡◌, refl, sym, ◌∙◌, inl, inr, Bool, true, false, not, ◌&&◌, Option, none,
  some, List, [], ◌∷◌, ◌++◌, Bytes, bytes_eq, bytes_eq_iff, if◌then◌else◌, Bool-cases, &&-eq-true,
  arith,
}
use cloodsy_s.Db.Query.{count, last_match, update_where}
use cloodsy_s.Db.Query.Laws.{
  count_ext, count-append, count-update_where, count-delete_where, count_mono,
  count-last_match-none, count-last_match-some,
}
use cloodsy_s.Db.Multipart.{
  MultipartUpload, MultipartPart, Staging, is_upload, is_part_of, is_part, is_some,
  create_multipart_upload, replace_part, upsert_part, put_multipart_part_row,
  delete_multipart_upload,
}

-- What the statements on uploads and parts can make of empty tables.
pub data Reach : Staging → Type 0 where
  start : Reach (record { uploads = []; parts = [] })
  created :
      {s s' : Staging} (now : ℕ) (u : MultipartUpload)
      → Reach s
      → create_multipart_upload now u s ≡ some s'
      → Reach s'
  stored :
      {s s' : Staging} (now : ℕ) (p : MultipartPart)
      → Reach s
      → put_multipart_part_row now p s ≡ some s'
      → Reach s'
  deleted : {s : Staging} (id : Bytes) → Reach s → Reach (delete_multipart_upload id s).1

pub record IsSound (s : Staging) : Type 0 where
  pub unique_uploads : (id : Bytes) → count (is_upload id) s.uploads ≤ 1
  pub unique_parts : (id : Bytes) (n : ℕ) → count (is_part id n) s.parts ≤ 1
  pub no_orphans :
      (id : Bytes) → count (is_upload id) s.uploads ≡ 0 → count (is_part_of id) s.parts ≡ 0

count_one : {A : Type 0} (p : A → Bool) (x : A) → count p (x ∷ []) ≡ (if p x then 1 else 0)
unfolding count
count_one p x = ground arith

count_never : {A : Type 0} (p : A → Bool) (xs : List A) → ((x : A) → p x ≡ false) → count p xs ≡ 0
unfolding count
count_never p [] h = refl
count_never p (x ∷ xs) h = ground (arith, h x, count_never p xs h)

is_some-false : {A : Type 0} (o : Option A) → is_some o ≡ false → o ≡ none
is_some-false none h = refl
is_some-false (some a) h = cc

is_some-true : {A : Type 0} (o : Option A) → is_some o ≡ true → (a : A) × (o ≡ some a)
is_some-true none h = cc
is_some-true (some a) h = (a, refl)

create-IsSound :
    (now : ℕ) (u : MultipartUpload) (s s' : Staging)
    → IsSound s
    → create_multipart_upload now u s ≡ some s'
    → IsSound s'
unfolding create_multipart_upload
create-IsSound now u s s' w h =
    elim (Bool-cases (is_some (last_match (is_upload u.id) s.uploads))) [
      | inl taken ↦ let no : none ≡ some s' = rw taken at h in cc
      | inr free ↦
          let fresh = count-last_match-none (is_upload u.id) s.uploads (is_some-false _ free) in
          let row : MultipartUpload = record u { created_at = now } in
          let it : record s { uploads = s.uploads ++ row ∷ [] } ≡ s' =
            some-injective _ _ (rw free at h) in
          rw (← it) (record {
            unique_uploads = λ id. elim (Bool-cases (bytes_eq u.id id)) [
              | inl same ↦
                  let own = (bytes_eq_iff u.id id).0 same in
                  let zero_of = rw own at fresh in
                  rw (count-append, count_one (is_upload id) row, same) (omega arith)
              | inr other ↦
                  let few = w.unique_uploads id in
                  rw (count-append, count_one (is_upload id) row, other) (omega arith)
            ];
            unique_parts = w.unique_parts;
            no_orphans = λ id none_left.
                let sum = count-append (is_upload id) s.uploads (row ∷ []) in
                w.no_orphans id (omega arith);
          })
    ]

delete-IsSound : (id : Bytes) (s : Staging) → IsSound s → IsSound (delete_multipart_upload id s).1
unfolding delete_multipart_upload
delete-IsSound id s w = record {
  unique_uploads = λ id'.
      let fewer =
        count_mono (λ u. is_upload id' u && not (is_upload id u)) (is_upload id') s.uploads
          (λ u h. ground arith) in
      let few = w.unique_uploads id' in
      rw (count-delete_where (is_upload id') (is_upload id) s.uploads) (omega arith);
  unique_parts = λ id' n.
      let fewer =
        count_mono (λ p. is_part id' n p && not (is_part_of id p)) (is_part id' n) s.parts
          (λ p h. ground arith) in
      let few = w.unique_parts id' n in
      rw (count-delete_where (is_part id' n) (is_part_of id) s.parts) (omega arith);
  no_orphans = λ id' none_left. elim (Bool-cases (bytes_eq id id')) [
    | inl same ↦
        let own = (bytes_eq_iff id id').0 same in
        rw (count-delete_where (is_part_of id') (is_part_of id) s.parts, own)
          (count_never (λ (p : MultipartPart). is_part_of id' p && not (is_part_of id' p)) s.parts
            (λ p. ground arith))
    | inr other ↦
        let same_uploads =
          count_ext (λ u. is_upload id' u && not (is_upload id u)) (is_upload id') s.uploads
            (λ (u : MultipartUpload).
              ground (arith, bytes_eq_iff u.id id, bytes_eq_iff u.id id', bytes_eq_iff id id')) in
        let kept = count-delete_where (is_upload id') (is_upload id) s.uploads in
        let none_before = w.no_orphans id' (sym same_uploads ∙ sym kept ∙ none_left) in
        let fewer =
          count_mono (λ p. is_part_of id' p && not (is_part_of id p)) (is_part_of id') s.parts
            (λ p h. ground arith) in
        rw (count-delete_where (is_part_of id') (is_part_of id) s.parts) (omega arith)
  ];
}

module _ (now : ℕ) (p : MultipartPart) where
  -- A replaced part keeps its key.
  replaced_alike :
      (q r : MultipartPart → Bool)
      → ((x : MultipartPart) → q (if r x then replace_part now p x else x) ≡ q x)
      → (parts : List MultipartPart)
      → count q (update_where r (replace_part now p) parts) ≡ count q parts
  replaced_alike q r same parts =
      count-update_where q r (replace_part now p) parts
      ∙ count_ext (λ x. q (if r x then replace_part now p x else x)) q parts same

  abbrev appended : MultipartPart
  appended = record p { created_at = now }

  upsert_unique :
      (parts : List MultipartPart) (id : Bytes) (n : ℕ)
      → count (is_part id n) parts ≤ 1
      → count (is_part id n) (upsert_part now p parts) ≤ 1
  upsert_unique parts id n few =
      elim (Bool-cases (is_some (last_match (is_part p.upload_id p.part_number) parts))) [
        | inl there ↦ rw there (
            rw
              (replaced_alike (is_part id n) (is_part p.upload_id p.part_number) (λ x. ground arith)
                parts)
              few)
        | inr new ↦
            let fresh =
              count-last_match-none (is_part p.upload_id p.part_number) parts
                (is_some-false _ new) in
            elim (Bool-cases (is_part id n p)) [
              | inl same ↦
                  let (who, number) =
                    &&-eq-true (bytes_eq p.upload_id id) (p.part_number == n) same in
                  let own = (bytes_eq_iff p.upload_id id).0 who in
                  let at_n = (==_iff p.part_number n).0 number in
                  let zero_of = rw (own, at_n) at fresh in
                  rw (new, count-append, count_one (is_part id n) appended, same) (omega arith)
              | inr other ↦
                  rw (new, count-append, count_one (is_part id n) appended, other) (omega arith)
            ]
      ]

  upsert-other :
      (parts : List MultipartPart) (id : Bytes)
      → bytes_eq p.upload_id id ≡ false
      → count (is_part_of id) (upsert_part now p parts) ≡ count (is_part_of id) parts
  upsert-other parts id away =
      elim (Bool-cases (is_some (last_match (is_part p.upload_id p.part_number) parts))) [
        | inl there ↦ rw there (
            replaced_alike (is_part_of id) (is_part p.upload_id p.part_number) (λ x. ground arith)
              parts)
        | inr new ↦ rw (new, count-append, count_one (is_part_of id) appended, away) (omega arith)
      ]

  store-IsSound :
      (s s' : Staging) → IsSound s → put_multipart_part_row now p s ≡ some s' → IsSound s'
  unfolding put_multipart_part_row
  store-IsSound s s' w h =
      elim (Bool-cases (is_some (last_match (is_upload p.upload_id) s.uploads))) [
        | inr missing ↦ let no : none ≡ some s' = rw missing at h in cc
        | inl there ↦
            let (u, found) = is_some-true _ there in
            let some_row = count-last_match-some (is_upload p.upload_id) s.uploads u found in
            let it : record s { parts = upsert_part now p s.parts } ≡ s' =
              some-injective _ _ (rw there at h) in
            rw (← it) (record {
              unique_uploads = w.unique_uploads;
              unique_parts = λ id n. upsert_unique s.parts id n (w.unique_parts id n);
              no_orphans = λ id none_left. elim (Bool-cases (bytes_eq p.upload_id id)) [
                | inl same ↦
                    let own = rw ((bytes_eq_iff p.upload_id id).0 same) at some_row in
                    absurd (omega arith)
                | inr away ↦ upsert-other s.parts id away ∙ w.no_orphans id none_left
              ];
            })
      ]

-- After creations and deletions of uploads and writes of parts, in any order, on empty tables, upload ids are unique, an upload has at most one part of
-- a number, and every part belongs to an upload that exists.
pub Reach-IsSound : {s : Staging} → Reach s → IsSound s
unfolding count
Reach-IsSound start = record {
  unique_uploads = λ id. omega arith;
  unique_parts = λ id n. omega arith;
  no_orphans = λ id h. refl;
}
Reach-IsSound (created {s = s} {s' = s'} now u r h) = create-IsSound now u s s' (Reach-IsSound r) h
Reach-IsSound (stored {s = s} {s' = s'} now p r h) = store-IsSound now p s s' (Reach-IsSound r) h
Reach-IsSound (deleted {s = s} id r) = delete-IsSound id s (Reach-IsSound r)
