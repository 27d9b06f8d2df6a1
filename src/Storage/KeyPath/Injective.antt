-- ===== src/Storage/KeyPath/Injective.antt =====
-- Which keys share a path.
use cloodsy_s.Prelude.{
  ℕ, ◌+◌, ◌*◌, ◌≡◌, ◌≢◌, refl, sym, ap, ◌∙◌, ltb, ◌==◌, true, false, some, List, [], ◌∷◌, map, All,
  arith, length, Bytes, IsBytes, Lacks, All-map, ◌⊎◌, split_on, join_with, join_with-split_on,
  All-split_on, split_on-join_with, split_on-ne-nil, cons_head, ◌<◌, hex_encode, to_upper,
  Bool-cases, inl, inr,
}
use cloodsy_s.Storage.KeyPath.{
  max_verbatim_segment, segment_is_safe, encode_segment, encode_key_path,
}
use cloodsy_s.Storage.KeyPath.Segments.{
  hex_encode_inj, upper_hex_inj, upper_hex-ne-mark, encode_safe, encode_long, encode_short,
  safe-ne-percent, encode_segment-Lacks, encode_segment-dots, is_dots,
}

bytes-cons_head :
    (x : ℕ) (ps : List Bytes) → x < 256 → All IsBytes ps → All IsBytes (cons_head x ps)
bytes-cons_head x [] h k = ((h, tt), tt)
bytes-cons_head x (p ∷ ps) h (k, ks) = ((h, k), ks)

All-of_bytes : (c : ℕ) (s : Bytes) → IsBytes s → All IsBytes (split_on c s)
unfolding split_on
All-of_bytes c [] h = (tt, tt)
All-of_bytes c (x ∷ s) (k, h) = elim (Bool-cases (x == c)) [
  | inl e ↦ rw e (tt, All-of_bytes c s h)
  | inr e ↦ rw e (bytes-cons_head x (split_on c s) k (All-of_bytes c s h))
]

module _ (sha256 : Bytes → Bytes) where
  -- The hash tells the segment from all segments of the list.
  abbrev pub Tells : List Bytes → Bytes → Type 0
  Tells others s = All (λ o. sha256 s ≡ sha256 o → s ≡ o) others

  -- No segment of the one key has the hash of another segment of the other.
  abbrev pub NoCollision : Bytes → Bytes → Type 0
  NoCollision key key' = All (Tells (split_on b'/' key')) (split_on b'/' key)

  encode_cases :
      (s : Bytes)
      → ((segment_is_safe s ≡ true) × (encode_segment sha256 s ≡ s))
        ⊎ ((encode_segment sha256 s ≡ b'%' ∷ b'H' ∷ hex_encode (sha256 s))
            ⊎ (encode_segment sha256 s ≡ b'%' ∷ to_upper (hex_encode s)))
  encode_cases s = elim (Bool-cases (segment_is_safe s)) [
    | inl e ↦ inl (e, encode_safe sha256 s e)
    | inr e ↦ elim (Bool-cases (ltb max_verbatim_segment (length s * 2 + 1))) [
      | inl g ↦ inr (inl (encode_long sha256 s e g))
      | inr g ↦ inr (inr (encode_short sha256 s e g))
    ]
  ]

  tail-eq : (c d : ℕ) (s o : Bytes) → ◌≡◌ {A = Bytes} (c ∷ s) (d ∷ o) → s ≡ o
  tail-eq c d s o h = cc

  encode_segment_inj :
      (s o : Bytes)
      → IsBytes s
      → IsBytes o
      → (sha256 s ≡ sha256 o → s ≡ o)
      → encode_segment sha256 s ≡ encode_segment sha256 o
      → s ≡ o
  encode_segment_inj s o bs bo tells h = elim (encode_cases s) [
    | inl (safe, e) ↦ elim (encode_cases o) [
      | inl (safe', f) ↦ sym e ∙ h ∙ f
      | inr (inl f) ↦ absurd (safe-ne-percent sha256 s _ safe (sym e ∙ h ∙ f))
      | inr (inr f) ↦ absurd (safe-ne-percent sha256 s _ safe (sym e ∙ h ∙ f))
    ]
    | inr (inl e) ↦ elim (encode_cases o) [
      | inl (safe, f) ↦ absurd (safe-ne-percent sha256 o _ safe (sym f ∙ sym h ∙ e))
      | inr (inl f) ↦
          tells (
            hex_encode_inj (sha256 s) (sha256 o)
              (tail-eq _ _ _ _ (tail-eq _ _ _ _ (sym e ∙ h ∙ f))))
      | inr (inr f) ↦ absurd (upper_hex-ne-mark o _ bo (sym (tail-eq _ _ _ _ (sym e ∙ h ∙ f))))
    ]
    | inr (inr e) ↦ elim (encode_cases o) [
      | inl (safe, f) ↦ absurd (safe-ne-percent sha256 o _ safe (sym f ∙ sym h ∙ e))
      | inr (inl f) ↦ absurd (upper_hex-ne-mark s _ bs (tail-eq _ _ _ _ (sym e ∙ h ∙ f)))
      | inr (inr f) ↦ upper_hex_inj s o (tail-eq _ _ _ _ (sym e ∙ h ∙ f))
    ]
  ]

  encode_segments_inj :
      (ss os : List Bytes)
      → All IsBytes ss
      → All IsBytes os
      → All (Tells os) ss
      → map (encode_segment sha256) ss ≡ map (encode_segment sha256) os
      → ss ≡ os
  encode_segments_inj [] [] bs bo tells h = refl
  encode_segments_inj [] (o ∷ os) bs bo tells h = cc
  encode_segments_inj (s ∷ ss) [] bs bo tells h = cc
  encode_segments_inj (s ∷ ss) (o ∷ os) (b, bs) (b', bo) ((t, _), tells) h =
      let e : encode_segment sha256 s ≡ encode_segment sha256 o = cc in
      let es : map (encode_segment sha256) ss ≡ map (encode_segment sha256) os = cc in
      let same = encode_segment_inj s o b b' t e in
      let rest = encode_segments_inj ss os bs bo (All-map _ _ ss (λ x k. k.1) tells) es in cc

  encode-Lacks :
      (ss : List Bytes) → All (Lacks b'/') ss → All (Lacks b'/') (map (encode_segment sha256) ss)
  encode-Lacks [] h = tt
  encode-Lacks (s ∷ ss) (k, h) = (encode_segment-Lacks sha256 s k, encode-Lacks ss h)

  split-encoded :
      (ss : List Bytes)
      → ss ≢ []
      → All (Lacks b'/') ss
      → split_on b'/' (join_with b'/' (map (encode_segment sha256) ss))
        ≡ map (encode_segment sha256) ss
  split-encoded [] n h = absurd (n refl)
  split-encoded (s ∷ ss) n h =
      split_on-join_with b'/' (encode_segment sha256 s) (map (encode_segment sha256) ss)
        (encode-Lacks (s ∷ ss) h)

  encode_key_path-inv :
      (key path : Bytes)
      → encode_key_path sha256 key ≡ some path
      → path ≡ join_with b'/' (map (encode_segment sha256) (split_on b'/' key))
  unfolding encode_key_path
  encode_key_path-inv key path h = ground arith

  -- The segments of a path are the encoded segments of the key.
  split-encode_key_path :
      (key path : Bytes)
      → encode_key_path sha256 key ≡ some path
      → split_on b'/' path ≡ map (encode_segment sha256) (split_on b'/' key)
  split-encode_key_path key path h =
      ap (split_on b'/') (encode_key_path-inv key path h)
      ∙ split-encoded (split_on b'/' key) (split_on-ne-nil b'/' key) (All-split_on b'/' key)

  -- Two keys of bytes that have the same path are the same, unless the hash takes a segment of the
  -- one for another segment of the other.
  pub encode_key_path_inj :
      (key key' path : Bytes)
      → IsBytes key
      → IsBytes key'
      → NoCollision key key'
      → encode_key_path sha256 key ≡ some path
      → encode_key_path sha256 key' ≡ some path
      → key ≡ key'
  encode_key_path_inj key key' path b b' n h h' =
      let same =
        encode_segments_inj (split_on b'/' key) (split_on b'/' key') (All-of_bytes b'/' key b)
          (All-of_bytes b'/' key' b') n
          (sym (split-encode_key_path key path h) ∙ split-encode_key_path key' path h') in
      sym (join_with-split_on b'/' key) ∙ ap (join_with b'/') same ∙ join_with-split_on b'/' key'

  encode-dots : (ss : List Bytes) → All (λ p. is_dots p ≡ false) (map (encode_segment sha256) ss)
  encode-dots [] = tt
  encode-dots (s ∷ ss) = (encode_segment-dots sha256 s, encode-dots ss)

  -- Whatever the key, no segment of its path is empty, `.` or `..`.
  pub encode_key_path-dots :
      (key path : Bytes)
      → encode_key_path sha256 key ≡ some path
      → All (λ p. is_dots p ≡ false) (split_on b'/' path)
  encode_key_path-dots key path h =
      rw (split-encode_key_path key path h) (encode-dots (split_on b'/' key))
