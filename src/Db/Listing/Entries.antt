-- ===== src/Db/Listing/Entries.antt =====
-- The entries of a listing, stated without batches and cursors: each key gives its entry, and
-- neighbours with the same common prefix are one entry. Also the order of keys.
use cloodsy_s.Prelude.{
  ◌+◌, ◌≡◌, refl, Bool, true, List, [], ◌∷◌, ◌++◌, keep, length, All, arith, Bytes, bytes_lt,
  All-keep, All-append_right, if◌then◌else◌, Bool-cases, inl, inr,
}
use cloodsy_s.Db.Objects.{ObjectMeta}
use cloodsy_s.Db.Listing.{Entry, object, common, entry_of, skip_of, skips, Progress, add_entry}

-- The entries of the rows, the keys under `skipping` left out.
unfoldable pub roll_up : Bytes → Bytes → Bytes → List ObjectMeta → List Entry
roll_up prefix delimiter skipping [] = []
roll_up prefix delimiter skipping (o ∷ rows) =
    let e : Entry = entry_of prefix delimiter o in
    let passed = roll_up prefix delimiter skipping rows in
    let emitted = e ∷ roll_up prefix delimiter (skip_of e) rows in
    if skips skipping o then passed else emitted

unfoldable pub add_entries : List Entry → Progress → Progress
add_entries [] st = st
add_entries (e ∷ es) st = add_entries es (add_entry e st)

-- The last entry, starting from the one before.
abbrev pub last_of : Entry → List Entry → Entry
last_of e [] = e
last_of e (x ∷ es) = last_of x es

-- Strictly ascending keys.
abbrev pub Ascending : List ObjectMeta → Type 0
Ascending [] = Unit
Ascending (r ∷ rows) = All (λ x. bytes_lt r.key x.key ≡ true) rows × Ascending rows

pub add_entries-append :
    (xs ys : List Entry) (st : Progress)
    → add_entries (xs ++ ys) st ≡ add_entries ys (add_entries xs st)
unfolding add_entries
add_entries-append [] ys st = refl
add_entries-append (x ∷ xs) ys st = add_entries-append xs ys (add_entry x st)

pub count-add_entry : (e : Entry) (st : Progress) → (add_entry e st).count ≡ st.count + 1
unfolding add_entry
count-add_entry (object o) st = refl
count-add_entry (common cp) st = refl

pub count-add_entries :
    (es : List Entry) (st : Progress) → (add_entries es st).count ≡ st.count + length es
unfolding add_entries
count-add_entries [] st = omega arith
count-add_entries (e ∷ es) st =
    omega (arith, count-add_entries es (add_entry e st), count-add_entry e st)

pub Ascending-keep :
    (p : ObjectMeta → Bool) (rows : List ObjectMeta) → Ascending rows → Ascending (keep p rows)
Ascending-keep p [] h = tt
Ascending-keep p (r ∷ rows) (h, a) = elim (Bool-cases (p r)) [
  | inl e ↦ rw e (All-keep _ p rows h, Ascending-keep p rows a)
  | inr e ↦ rw e (Ascending-keep p rows a)
]

pub Ascending-append_right : (xs ys : List ObjectMeta) → Ascending (xs ++ ys) → Ascending ys
Ascending-append_right [] ys a = a
Ascending-append_right (x ∷ xs) ys (h, a) = Ascending-append_right xs ys a

-- What stands before a row has smaller keys.
pub Ascending-before :
    (xs : List ObjectMeta) (o : ObjectMeta) (ys : List ObjectMeta)
    → Ascending (xs ++ o ∷ ys)
    → All (λ x. bytes_lt x.key o.key ≡ true) xs
Ascending-before [] o ys a = tt
Ascending-before (x ∷ xs) o ys (h, a) =
    ((All-append_right _ xs (o ∷ ys) h).0, Ascending-before xs o ys a)
