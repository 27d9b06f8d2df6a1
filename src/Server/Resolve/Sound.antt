-- ===== src/Server/Resolve/Sound.antt =====
-- What the bucket and the key have to do with the host and the path.
use mathlib.Core.Option.{some-injective}
use cloodsy_s.Prelude.{
  ◌-◌, ◌≡◌, refl, sym, ap, ◌∙◌, true, not, ◌&&◌, ◌||◌, ◌⊎◌, inl, inr, none, some, List, [], ◌∷◌,
  ◌++◌, arith, take, length, Bytes, bytes_eq, bytes_eq_iff, codes, non_empty, has_suffix,
  contains_byte, cut_byte, trim_prefix, trim_suffix, to_lower, Lacks, take-append-drop, &&-eq-true,
  any, bytes_eq_refl, has_suffix-append, length-append, Bytes, ℕ, cut_byte-none, cut_byte_sound,
  Bool-cases, Option-cases,
}
use cloodsy_s.Server.Resolve.{split_host_port, or_whole, virtual_bucket, path_style, resolve}

trim_suffix_lem : (s d : Bytes) → has_suffix s d ≡ true → trim_suffix s d ++ d ≡ s
unfolding trim_suffix has_suffix
trim_suffix_lem s d h =
    let same = (bytes_eq_iff _ d).0 (&&-eq-true _ _ h).1 in
    rw h (
      ap (λ r. take (length s - length d) s ++ r) (sym same)
      ∙ take-append-drop (length s - length d) s)

-- The host is the bucket, which has no dot, and one of the domains, which is not empty.
abbrev pub SelectedBy : Bytes → List Bytes → Bytes → Type 0
SelectedBy host domains b =
    (domain : Bytes) × (any (λ d. bytes_eq (to_lower (trim_prefix d (codes "."))) domain) domains
      ≡ true)
    × (non_empty domain ≡ true)
    × (host ≡ b ++ (b'.' ∷ domain))
    × (non_empty b ≡ true)
    × Lacks b'.' b

-- The path is the bucket, which has no slash, alone or with the key behind it.
abbrev pub SpelledBy : Bytes → Bytes × Bytes → Type 0
SpelledBy path r = Lacks b'/' r.0 × ((path ≡ r.0 ++ (b'/' ∷ r.1)) ⊎ ((path ≡ r.0) × (r.1 ≡ [])))

SelectedBy-later :
    (host d : Bytes) (domains : List Bytes) (b : Bytes)
    → SelectedBy host domains b
    → SelectedBy host (d ∷ domains) b
SelectedBy-later host d domains b (domain, m, f, e, n, l) = (domain, ground arith, f, e, n, l)

virtual_bucket-SelectedBy :
    (host : Bytes) (domains : List Bytes) (b : Bytes)
    → virtual_bucket host domains ≡ some b
    → SelectedBy host domains b
unfolding virtual_bucket
virtual_bucket-SelectedBy host [] b h = cc
virtual_bucket-SelectedBy host (d ∷ domains) b h =
    let domain = to_lower (trim_prefix d (codes ".")) in
    let dotted = b'.' ∷ domain in
    elim (Bool-cases (not (non_empty domain) || not (has_suffix host dotted))) [
      | inl skip ↦
          SelectedBy-later host d domains b
            (virtual_bucket-SelectedBy host domains b (rw skip at h))
      | inr keep ↦
          elim (Bool-cases (
            non_empty (trim_suffix host dotted)
            && not (contains_byte b'.' (trim_suffix host dotted)))) [
              | inr no_name ↦
                  SelectedBy-later host d domains b
                    (virtual_bucket-SelectedBy host domains b (rw (keep, no_name) at h))
              | inl fits ↦
                  let found : trim_suffix host dotted ≡ b =
                    some-injective _ _ (rw (keep, fits) at h) in
                  let suffixed : has_suffix host dotted ≡ true = ground arith in
                  (
                    domain,
                    rw (bytes_eq_refl domain) refl,
                    ground arith,
                    rw (← found) (sym (trim_suffix_lem host dotted suffixed)),
                    rw (← found) (&&-eq-true _ _ fits).0,
                    rw (← found) (ground arith),
                  )
            ]
    ]

take_whole : (b d : Bytes) → take (length b) (b ++ d) ≡ b
take_whole [] d = refl
take_whole (c ∷ b) d = ap (λ r. c ∷ r) (take_whole b d)

take_front : (n : ℕ) (b d : Bytes) → n ≡ length b → take n (b ++ d) ≡ b
take_front n b d h = rw h (take_whole b d)

trim_suffix-append : (b d : Bytes) → trim_suffix (b ++ d) d ≡ b
unfolding trim_suffix
trim_suffix-append b d =
    rw (has_suffix-append b d)
      (take_front (length (b ++ d) - length d) b d (omega (arith, length-append b d)))

-- A host that a domain fits selects a bucket.
fitting-some :
    (host d b : Bytes) (domains : List Bytes)
    → non_empty (to_lower (trim_prefix d (codes "."))) ≡ true
    → host ≡ b ++ (b'.' ∷ to_lower (trim_prefix d (codes ".")))
    → non_empty b ≡ true
    → Lacks b'.' b
    → virtual_bucket host (d ∷ domains) ≡ some b
unfolding virtual_bucket
fitting-some host d b domains f e n l =
    let domain = to_lower (trim_prefix d (codes ".")) in
    rw (e, has_suffix-append b (b'.' ∷ domain), trim_suffix-append b (b'.' ∷ domain), f, n, l) refl

later_none :
    (host d : Bytes) (domains : List Bytes)
    → virtual_bucket host (d ∷ domains) ≡ none
    → virtual_bucket host domains ≡ none
unfolding virtual_bucket
later_none host d domains h = ground arith

virtual_bucket-none :
    (host : Bytes) (domains : List Bytes) (b : Bytes)
    → virtual_bucket host domains ≡ none
    → ¬ SelectedBy host domains b
virtual_bucket-none host [] b h (domain, m, f, e, n, l) = cc
virtual_bucket-none host (d ∷ domains) b h (domain, m, f, e, n, l) =
    elim (Bool-cases (bytes_eq (to_lower (trim_prefix d (codes "."))) domain)) [
      | inl same ↦
          let it = (bytes_eq_iff _ domain).0 same in
          let found = fitting-some host d b domains (rw it f) (rw it e) n l in
          let no : none ≡ some b = sym h ∙ found in cc
      | inr away ↦
          virtual_bucket-none host domains b (later_none host d domains h)
            (domain, rw away at m, f, e, n, l)
    ]

path_style-SpelledBy : (path : Bytes) → SpelledBy path (path_style path (cut_byte b'/' path))
path_style-SpelledBy path = elim (Option-cases (cut_byte b'/' path)) [
  | inl e ↦ rw e (cut_byte-none b'/' path e, inr (refl, refl))
  | inr (p, e) ↦ let (whole, lacks) = cut_byte_sound b'/' path p e in rw e (lacks, inl whole)
]

abbrev pub host_name : Bytes → Bytes
host_name host = to_lower (or_whole host (split_host_port host))

-- Whatever the request, the bucket and the key come either from the host, which then is the bucket, a
-- name without dots, a dot and a configured domain that is not empty, the key being the path without its
-- leading slash; or, when the host is not so composed of any bucket and any of the domains, from that path, which is the bucket, a name without slashes, with or without a
-- key behind a slash.
pub resolve_sound :
    (domains : List Bytes) (host url_path : Bytes)
    → (SelectedBy (host_name host) domains (resolve domains host url_path).0
        × ((resolve domains host url_path).1 ≡ trim_prefix url_path (codes "/")))
      ⊎ (((b : Bytes) → ¬ SelectedBy (host_name host) domains b)
          × SpelledBy (trim_prefix url_path (codes "/")) (resolve domains host url_path))
unfolding resolve
resolve_sound domains host url_path =
    elim (Option-cases (virtual_bucket (host_name host) domains)) [
      | inl e ↦ inr (
          rw e (
            λ b. virtual_bucket-none (host_name host) domains b e,
            path_style-SpelledBy (trim_prefix url_path (codes "/")),
          ))
      | inr (b, e) ↦ inl (rw e (virtual_bucket-SelectedBy (host_name host) domains b e, refl))
    ]
