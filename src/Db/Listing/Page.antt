-- ===== src/Db/Listing/Page.antt =====
-- What one call of `ListObjectsMeta` returns.
use mathlib.Core.List.{append-nil, append_assoc}
use cloodsy_s.Prelude.{
  ℕ, ◌+◌, ◌≡◌, refl, sym, ap, ◌∙◌, Bool, true, false, Option, none, some, List, [], ◌∷◌, ◌++◌,
  length, All, arith, Bytes, has_prefix_refl, non_empty, if◌then◌else◌, Bool-cases, Option-cases,
  inl, inr, bytes_eq, bytes_eq_refl, bytes_eq_iff,
}
use cloodsy_s.Db.Objects.{ObjectMeta, Table}
use cloodsy_s.Db.Listing.{
  Entry, object, common, entry_of, skip_of, skips, Progress, no_progress, add_entry, common_prefix,
  Cursor, selected, last_prefix_is, probe_cursor, ListResult,
}
use cloodsy_s.Db.Listing.Entries.{roll_up, add_entries}
use cloodsy_s.Db.Listing.Common.{
  entry_of-none, entry_of-some, common_prefix-non_empty, common_prefix-shared,
}
use cloodsy_s.Db.Listing.Resume.{behind, rows_from, IsListed, roll_up-skip, roll_up-emit}
use cloodsy_s.Db.Listing.Loop.{List-cases}

abbrev pub objects_of : List Entry → List ObjectMeta
objects_of [] = []
objects_of (object o ∷ es) = o ∷ objects_of es
objects_of (common cp ∷ es) = objects_of es

abbrev pub prefixes_of : List Entry → List Bytes
prefixes_of [] = []
prefixes_of (object o ∷ es) = prefixes_of es
prefixes_of (common cp ∷ es) = cp ∷ prefixes_of es

abbrev pub name_of : Entry → Bytes
name_of (object o) = o.key
name_of (common cp) = cp

-- The name of the last entry, or the empty string.
abbrev pub last_name : Bytes → List Entry → Bytes
last_name n [] = n
last_name n (e ∷ es) = last_name (name_of e) es

-- A page of entries as the function returns it.
abbrev pub page : List Entry → Bool → ListResult
page es more = record {
  objects = objects_of es;
  common_prefixes = prefixes_of es;
  is_truncated = more;
  next_marker = if more then last_name [] es else [];
}

-- The entries from a start on: those of the rows from there, rolled up.
abbrev pub entries_from : Table → ℕ → Bytes → Bytes → Option Cursor → List Entry
entries_from t b prefix delimiter c =
    roll_up prefix delimiter [] (rows_from c (selected t b prefix))

progress_path :
    {os os' : List ObjectMeta} {cs cs' : List Bytes} {n n' : ℕ} (l : Bytes)
    → os ≡ os'
    → cs ≡ cs'
    → n ≡ n'
    → ◌≡◌ {A = Progress}
        (record { objects = os; common_prefixes = cs; count = n; last_entry = l })
        (record { objects = os'; common_prefixes = cs'; count = n'; last_entry = l })
progress_path l p q r =
    λ i. record { objects = p i; common_prefixes = q i; count = r i; last_entry = l }

pub add_entries_lem :
    (es : List Entry) (st : Progress)
    → add_entries es st ≡ record {
      objects = st.objects ++ objects_of es;
      common_prefixes = st.common_prefixes ++ prefixes_of es;
      count = st.count + length es;
      last_entry = last_name st.last_entry es;
    }
unfolding add_entries add_entry
add_entries_lem [] st =
    progress_path st.last_entry (sym (append-nil st.objects)) (sym (append-nil st.common_prefixes))
      (omega arith)
add_entries_lem (object o ∷ es) st =
    add_entries_lem es (add_entry (object o) st)
    ∙ progress_path (last_name o.key es) (append_assoc st.objects (o ∷ []) (objects_of es)) refl
        (omega arith)
add_entries_lem (common cp ∷ es) st =
    add_entries_lem es (add_entry (common cp) st)
    ∙ progress_path (last_name cp es) refl
        (append_assoc st.common_prefixes (cp ∷ []) (prefixes_of es)) (omega arith)

module _ (prefix delimiter : Bytes) where
  -- An object whose key is not rolled up, or the common prefix of some key.
  abbrev pub IsEntry : Entry → Type 0
  IsEntry (object o) = (non_empty o.key ≡ true) × (common_prefix prefix delimiter o.key ≡ none)
  IsEntry (common cp) = (k : Bytes) × (common_prefix prefix delimiter k ≡ some cp)

  entry_of-IsEntry : (o : ObjectMeta) → IsListed prefix o → IsEntry (entry_of prefix delimiter o)
  entry_of-IsEntry o l = elim (Option-cases (common_prefix prefix delimiter o.key)) [
    | inl e ↦ rw (entry_of-none prefix delimiter o e) (l.named, e)
    | inr (cp, e) ↦ rw (entry_of-some prefix delimiter o cp e) (o.key, e)
  ]

  pub roll_up-IsEntry :
      (rows : List ObjectMeta) (skipping : Bytes)
      → All (IsListed prefix) rows
      → All IsEntry (roll_up prefix delimiter skipping rows)
  roll_up-IsEntry [] skipping h = unfold roll_up in tt
  roll_up-IsEntry (o ∷ rows) skipping (l, h) = elim (Bool-cases (skips skipping o)) [
    | inl skipped ↦
        rw (roll_up-skip prefix delimiter skipping o rows skipped) (roll_up-IsEntry rows skipping h)
    | inr emitted ↦
        rw (roll_up-emit prefix delimiter skipping o rows emitted)
          (entry_of-IsEntry o l, roll_up-IsEntry rows (skip_of (entry_of prefix delimiter o)) h)
  ]

  -- The key of an object entry is no common prefix of the same listing.
  object-ne-common :
      (o : ObjectMeta) (cp : Bytes)
      → IsEntry (object o)
      → IsEntry (common cp)
      → bytes_eq cp o.key ≡ false
  object-ne-common o cp (n, h) (k, g) = elim (Bool-cases (bytes_eq cp o.key)) [
    | inr e ↦ e
    | inl e ↦
        let same = (bytes_eq_iff cp o.key).0 e in
        let rolled =
          common_prefix-shared prefix delimiter k o.key cp g (rw same (has_prefix_refl o.key)) in
        cc
  ]

  name_of-non_empty : (e : Entry) → IsEntry e → non_empty (name_of e) ≡ true
  name_of-non_empty (object o) (n, h) = n
  name_of-non_empty (common cp) (k, h) = common_prefix-non_empty prefix delimiter k cp h

  last_prefix_is-object :
      (o : ObjectMeta) (es : List Entry)
      → IsEntry (object o)
      → All IsEntry es
      → last_prefix_is o.key (prefixes_of es) ≡ false
  last_prefix_is-object o [] h a = refl
  last_prefix_is-object o (object x ∷ es) h (g, a) = last_prefix_is-object o es h a
  last_prefix_is-object o (common cp ∷ es) h (g, a) = elim (List-cases (prefixes_of es)) [
    | inl e ↦ rw e (object-ne-common o cp h g)
    | inr (p, ps, e) ↦ rw e (rw e at (last_prefix_is-object o es h a))
  ]

  last_prefix_is-common : (cp : Bytes) (ps : List Bytes) → last_prefix_is cp (ps ++ cp ∷ []) ≡ true
  last_prefix_is-common cp [] = bytes_eq_refl cp
  last_prefix_is-common cp (p ∷ []) = bytes_eq_refl cp
  last_prefix_is-common cp (p ∷ q ∷ ps) = last_prefix_is-common cp (q ∷ ps)

  prefixes_of-append :
      (xs ys : List Entry) → prefixes_of (xs ++ ys) ≡ prefixes_of xs ++ prefixes_of ys
  prefixes_of-append [] ys = refl
  prefixes_of-append (object o ∷ xs) ys = prefixes_of-append xs ys
  prefixes_of-append (common cp ∷ xs) ys = ap (λ r. cp ∷ r) (prefixes_of-append xs ys)

  last_name-append :
      (n : Bytes) (xs : List Entry) (e : Entry) → last_name n (xs ++ e ∷ []) ≡ name_of e
  last_name-append n [] e = refl
  last_name-append n (x ∷ xs) e = last_name-append (name_of x) xs e

  -- After entries that end in `e` the probe starts behind `e`.
  pub probe_cursor-behind :
      (es : List Entry) (e : Entry)
      → All IsEntry es
      → IsEntry e
      → (probe_cursor (add_entries (es ++ e ∷ []) no_progress) ≡ behind e)
        × (non_empty (add_entries (es ++ e ∷ []) no_progress).last_entry ≡ true)
  probe_cursor-behind es (object o) a h =
      rw
        (
          add_entries_lem,
          last_name-append [] es (object o),
          prefixes_of-append es (object o ∷ []),
          append-nil,
          last_prefix_is-object o es h a,
        )
        (refl, h.0)
  probe_cursor-behind es (common cp) a h =
      rw
        (
          add_entries_lem,
          last_name-append [] es (common cp),
          prefixes_of-append es (common cp ∷ []),
          last_prefix_is-common cp (prefixes_of es),
        )
        (refl, name_of-non_empty (common cp) h)
