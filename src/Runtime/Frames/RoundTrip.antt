-- ===== src/Runtime/Frames/RoundTrip.antt =====
-- What one side encodes the other side decodes, whatever the chunks in which it arrives.
use agent_supervisor_runtime.Base.{
  ℕ, zero, suc, ◌/◌, ◌%◌, ◌^◌, ◌≤◌, ◌<◌, false, List, [], ◌∷◌, ◌++◌, Option, some, ◌≡◌, refl, ap,
  subst, ◌∙◌, length, length-append, ltb, arith, Bool-cases, inl, inr,
}
use agent_supervisor_runtime.Runtime.Frames.{
  Bytes, FrameResult, ok, throw, header, length_of, take, drop, encode, frame, turn, drain, push,
  receive,
}
use agent_supervisor_runtime.Runtime.Frames.Chunks.{concat, receive-push, drain-suc}

-- The stream of the frames of several values.
abbrev pub joined : FrameResult Bytes → FrameResult Bytes → FrameResult Bytes
joined (throw e) more = throw e
joined (ok bytes) (throw e) = throw e
joined (ok bytes) (ok more) = ok (bytes ++ more)

unfoldable pub encode_all {ℓ} : {A : Type ℓ} → (A → Bytes) → ℕ → List A → FrameResult Bytes
unfolding encode
encode_all text_of max_bytes [] = ok []
encode_all text_of max_bytes (v ∷ vs) =
    joined (encode text_of max_bytes v) (encode_all text_of max_bytes vs)

length_of-header :
    (n : ℕ)
    → n < 2 ^ 32
    → length_of (n % 256) (n / 256 % 256) (n / 65536 % 256) (n / 16777216 % 256) ≡ n
length_of-header n h = omega arith

take_all : (xs ys : Bytes) → take (length xs) (xs ++ ys) ≡ xs
unfolding take
take_all [] ys = refl
take_all (x ∷ xs) ys = ap (λ l. x ∷ l) (take_all xs ys)

drop_all : (xs ys : Bytes) → drop (length xs) (xs ++ ys) ≡ ys
unfolding drop
drop_all [] ys = refl
drop_all (x ∷ xs) ys = drop_all xs ys

same_bytes : {xs ys : Bytes} → ok xs ≡ ok ys → xs ≡ ys
same_bytes e = cc

parts :
    (x y : FrameResult Bytes) (bytes : Bytes)
    → joined x y ≡ ok bytes
    → (xs : Bytes) × (ys : Bytes) × (x ≡ ok xs) × (y ≡ ok ys) × (xs ++ ys ≡ bytes)
parts (throw e) y bytes p = ground arith
parts (ok xs) (throw e) bytes p = ground arith
parts (ok xs) (ok ys) bytes p = (xs, ys, refl, refl, same_bytes p)

module _ {ℓ} {A : Type ℓ} (text_of : A → Bytes) (value_of : Bytes → Option A)
    (sent_max received_max : ℕ) (parses : (v : A) → value_of (text_of v) ≡ some v)
    (wide : sent_max ≤ received_max) (fits : sent_max < 2 ^ 32) where
  turn-frame :
      (v : A) (rest : Bytes)
      → length (text_of v) ≤ sent_max
      → turn value_of received_max (header (length (text_of v)) ++ text_of v ++ rest) ≡ frame v rest
  unfolding turn
  turn-frame v rest h =
      let n : ℕ = length (text_of v) in
      let size = length_of-header n (omega (arith, h, fits)) in
      let small : ltb received_max n ≡ false = ground (arith, h, wide) in
      let there : ltb (length (text_of v ++ rest)) n ≡ false =
        ground (arith, length-append (text_of v) rest) in
      rw (size, small, there, take_all (text_of v) rest, drop_all (text_of v) rest, parses v) refl

  encoded :
      (v : A) (bytes : Bytes)
      → encode text_of sent_max v ≡ ok bytes
      → (length (text_of v) ≤ sent_max) × (header (length (text_of v)) ++ text_of v ≡ bytes)
  unfolding encode
  encoded v bytes e = elim (Bool-cases (ltb sent_max (length (text_of v)))) [
    | inl w ↦ ground arith
    | inr w ↦ (ground arith, same_bytes (rw w at e))
  ]

  decoded :
      (vs : List A) (bytes : Bytes) (n : ℕ)
      → encode_all text_of sent_max vs ≡ ok bytes
      → length bytes < n
      → drain value_of received_max n bytes ≡ (ok vs, [])
  unfolding encode_all turn
  decoded vs bytes zero e h = absurd (omega (arith, h))
  decoded [] bytes (suc n) e h = rw (← same_bytes e) (drain-suc value_of received_max n [])
  decoded (v ∷ vs) bytes (suc n) e h =
      let (xs, ys, p, q, whole) = parts _ _ bytes e in
      let (small, head) = encoded v xs p in
      let same : (header (length (text_of v)) ++ text_of v) ++ ys ≡ bytes =
        ap (λ l. l ++ ys) head ∙ whole in
      let shorter : length ys < n =
        omega (arith, h, ap length same, length-append (text_of v) ys) in
      let rest = decoded vs ys n q shorter in
      subst (λ l. drain value_of received_max (suc n) l ≡ (ok (v ∷ vs), [])) same
        (drain-suc value_of received_max n ((header (length (text_of v)) ++ text_of v) ++ ys)
          ∙ rw (turn-frame v ys small, rest) refl)

  -- Values that were all encoded are all decoded, in order, and however the stream of their frames
  -- is cut into chunks. The JSON text of each value parses to that value, the sender's limit is
  -- within the receiver's, and four bytes hold it.
  pub receive-encode_all :
      (vs : List A) (bytes : Bytes) (cs : List Bytes)
      → encode_all text_of sent_max vs ≡ ok bytes
      → concat cs ≡ bytes
      → (receive value_of received_max cs []).0 ≡ ok vs
  unfolding push
  receive-encode_all vs bytes cs e c =
      receive-push value_of received_max cs [] (unfold turn in refl)
      ∙ rw (c, decoded vs bytes (suc (length bytes)) e (omega arith)) refl
