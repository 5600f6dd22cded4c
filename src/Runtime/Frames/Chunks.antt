-- ===== src/Runtime/Frames/Chunks.antt =====
-- What a stream of frames gives when it is cut into chunks.
use agent_supervisor_runtime.Base.{
  ℕ, zero, suc, ◌≤◌, ◌<◌, false, List, [], ◌∷◌, ◌++◌, Option, none, some, ◌≡◌, refl, sym, ap, subst,
  ◌∙◌, length, length-append, ltb, arith, Bool-cases, inl, inr,
}
use agent_supervisor_runtime.Runtime.Frames.{
  Bytes, FrameError, FrameResult, after, deliver, ok, throw, take, drop, Turn, wait, fail, frame,
  length_of, turn_of, turn, with_value, on_turn, drain, push, before_values, and_then, receive,
  or_malformed,
}

take-append : (n : ℕ) (xs ys : Bytes) → n ≤ length xs → take n (xs ++ ys) ≡ take n xs
unfolding take
take-append zero xs ys h = refl
take-append (suc n) [] ys h = absurd (omega (arith, h))
take-append (suc n) (x ∷ xs) ys h = ap (λ l. x ∷ l) (take-append n xs ys (omega (arith, h)))

drop-append : (n : ℕ) (xs ys : Bytes) → n ≤ length xs → drop n (xs ++ ys) ≡ drop n xs ++ ys
unfolding drop
drop-append zero xs ys h = refl
drop-append (suc n) [] ys h = absurd (omega (arith, h))
drop-append (suc n) (x ∷ xs) ys h = drop-append n xs ys (omega (arith, h))

length-drop : (n : ℕ) (xs : Bytes) → length (drop n xs) ≤ length xs
unfolding drop
length-drop zero xs = omega arith
length-drop (suc n) [] = omega arith
length-drop (suc n) (x ∷ xs) = omega (arith, length-drop n xs)

append_nil : (bs : Bytes) → bs ++ [] ≡ bs
append_nil [] = refl
append_nil (b ∷ bs) = ap (λ x. b ∷ x) (append_nil bs)

append_assoc : (xs ys zs : Bytes) → (xs ++ ys) ++ zs ≡ xs ++ (ys ++ zs)
append_assoc [] ys zs = refl
append_assoc (x ∷ xs) ys zs = ap (λ l. x ∷ l) (append_assoc xs ys zs)

abbrev pub concat : List Bytes → Bytes
concat [] = []
concat (c ∷ cs) = c ++ concat cs

module _ {ℓ} {A : Type ℓ} where
  -- A turn that found something finds the same with more bytes behind.
  abbrev Extends : Turn A → Bytes → Turn A → Type ℓ
  Extends wait ys t = Unit
  Extends (fail e r) ys t = t ≡ fail e (r ++ ys)
  Extends (frame v r) ys t = t ≡ frame v (r ++ ys)

  abbrev Shrinks : Turn A → ℕ → Type 0
  Shrinks wait n = Unit
  Shrinks (fail e r) n = length r ≤ n
  Shrinks (frame v r) n = length r < n

module _ {ℓ} {A : Type ℓ} (value_of : Bytes → Option A) (max_bytes : ℕ) where
  malformed-Extends :
      (o : Option A) (r ys : Bytes) → Extends (or_malformed o r) ys (or_malformed o (r ++ ys))
  malformed-Extends none r ys = refl
  malformed-Extends (some v) r ys = refl

  turn_of-Extends :
      (n : ℕ) (rest all ys : Bytes)
      → Extends
          (turn_of value_of max_bytes n rest all)
          ys
          (turn_of value_of max_bytes n (rest ++ ys) (all ++ ys))
  turn_of-Extends n rest all ys = elim (Bool-cases (ltb max_bytes n)) [
    | inl v ↦ rw v refl
    | inr v ↦ elim (Bool-cases (ltb (length rest) n)) [
      | inl w ↦ rw (v, w) tt
      | inr w ↦
          let h : n ≤ length rest = ground arith in
          let k : ltb (length (rest ++ ys)) n ≡ false = ground (arith, length-append rest ys) in
          rw (v, w, k, take-append n rest ys h, drop-append n rest ys h)
            (malformed-Extends (value_of (take n rest)) (drop n rest) ys)
    ]
  ]

  turn-Extends :
      (xs ys : Bytes) → Extends (turn value_of max_bytes xs) ys (turn value_of max_bytes (xs ++ ys))
  unfolding turn
  turn-Extends [] ys = tt
  turn-Extends (a ∷ []) ys = tt
  turn-Extends (a ∷ b ∷ []) ys = tt
  turn-Extends (a ∷ b ∷ c ∷ []) ys = tt
  turn-Extends (a ∷ b ∷ c ∷ d ∷ rest) ys =
      turn_of-Extends (length_of a b c d) rest (a ∷ b ∷ c ∷ d ∷ rest) ys

  malformed-Shrinks :
      (o : Option A) (r : Bytes) (n : ℕ) → length r < n → Shrinks (or_malformed o r) n
  malformed-Shrinks none r n h = omega (arith, h)
  malformed-Shrinks (some v) r n h = h

  turn-Shrinks : (xs : Bytes) → Shrinks (turn value_of max_bytes xs) (length xs)
  unfolding turn
  turn-Shrinks [] = tt
  turn-Shrinks (a ∷ []) = tt
  turn-Shrinks (a ∷ b ∷ []) = tt
  turn-Shrinks (a ∷ b ∷ c ∷ []) = tt
  turn-Shrinks (a ∷ b ∷ c ∷ d ∷ rest) = elim (Bool-cases (ltb max_bytes (length_of a b c d))) [
    | inl v ↦ rw v (omega arith)
    | inr v ↦ elim (Bool-cases (ltb (length rest) (length_of a b c d))) [
      | inl w ↦ rw (v, w) tt
      | inr w ↦
          rw (v, w)
            (malformed-Shrinks (value_of (take (length_of a b c d) rest))
              (drop (length_of a b c d) rest) _
              (omega (arith, length-drop (length_of a b c d) rest)))
    ]
  ]

  abbrev Drained : Type ℓ
  Drained = FrameResult (List A) × Bytes

  fuel_turn :
      (t : Turn A) (n m : ℕ) (bs : Bytes)
      → ((r : Bytes)
          → length r < length bs
          → drain value_of max_bytes n r ≡ drain value_of max_bytes m r)
      → Shrinks t (length bs)
      → on_turn t bs (λ r. drain value_of max_bytes n r)
        ≡ on_turn t bs (λ r. drain value_of max_bytes m r)
  fuel_turn wait n m bs h s = refl
  fuel_turn (fail e r) n m bs h s = refl
  fuel_turn (frame v r) n m bs h s = ap (with_value v) (h r s)

  -- Any fuel above the length of the buffer gives the same result.
  pub drain_fuel :
      (n m : ℕ) (bs : Bytes)
      → length bs < n
      → length bs < m
      → drain value_of max_bytes n bs ≡ drain value_of max_bytes m bs
  unfolding drain
  drain_fuel zero m bs h k = absurd (omega (arith, h))
  drain_fuel (suc n) zero bs h k = absurd (omega (arith, k))
  drain_fuel (suc n) (suc m) bs h k =
      fuel_turn (turn value_of max_bytes bs) n m bs
        (λ r l. drain_fuel n m r (omega (arith, h, l)) (omega (arith, k, l))) (turn-Shrinks bs)

  -- The rest of a stream, after what came before it has been drained.
  abbrev resume : Drained → Bytes → (Bytes → Drained) → Drained
  resume (throw e, r) ys more = (throw e, r ++ ys)
  resume (ok vs, r) ys more = before_values vs (more (r ++ ys))

  before_none : (x : Drained) → before_values [] x ≡ x
  before_none (throw e, r) = refl
  before_none (ok vs, r) = refl

  value-before_values :
      (v : A) (vs : List A) (x : Drained)
      → with_value v (before_values vs x) ≡ before_values (v ∷ vs) x
  value-before_values v vs (throw e, r) = refl
  value-before_values v vs (ok ws, r) = refl

  value-resume :
      (v : A) (x : Drained) (ys : Bytes) (more : Bytes → Drained)
      → with_value v (resume x ys more) ≡ resume (with_value v x) ys more
  value-resume v (throw e, r) ys more = refl
  value-resume v (ok vs, r) ys more = value-before_values v vs (more (r ++ ys))

  append_turn :
      (t u : Turn A) (n m : ℕ) (xs ys : Bytes)
      → turn value_of max_bytes (xs ++ ys) ≡ u
      → Extends t ys u
      → Shrinks t (length xs)
      → length (xs ++ ys) < suc m
      → ((r : Bytes)
          → length r < length xs
          → drain value_of max_bytes (suc m) (r ++ ys)
            ≡ resume (drain value_of max_bytes n r) ys (drain value_of max_bytes (suc m)))
      → drain value_of max_bytes (suc m) (xs ++ ys)
        ≡ resume
            (on_turn t xs (λ r. drain value_of max_bytes n r))
            ys
            (drain value_of max_bytes (suc m))
  append_turn wait u n m xs ys e x s l h = sym (before_none _)
  append_turn (fail f r) u n m xs ys e x s l h = unfold drain in rw (e, x) refl
  append_turn (frame v r) u n m xs ys e x s l h =
      let k : length (r ++ ys) < m = omega (arith, length-append r ys, length-append xs ys, s, l) in
      let same = drain_fuel m (suc m) (r ++ ys) k (omega (arith, k)) in
      let first : drain value_of max_bytes (suc m) (xs ++ ys)
          ≡ with_value v (drain value_of max_bytes m (r ++ ys)) =
        unfold drain in rw (e, x) refl in
      first
      ∙ ap (with_value v) (same ∙ h r s)
      ∙ value-resume v (drain value_of max_bytes n r) ys (drain value_of max_bytes (suc m))

  pub drain-suc :
      (n : ℕ) (bs : Bytes)
      → drain value_of max_bytes (suc n) bs
        ≡ on_turn (turn value_of max_bytes bs) bs (λ r. drain value_of max_bytes n r)
  unfolding drain
  drain-suc n bs = refl

  drain-append :
      (n m : ℕ) (xs ys : Bytes)
      → length xs < n
      → length (xs ++ ys) < suc m
      → drain value_of max_bytes (suc m) (xs ++ ys)
        ≡ resume (drain value_of max_bytes n xs) ys (drain value_of max_bytes (suc m))
  drain-append zero m xs ys h l = absurd (omega (arith, h))
  drain-append (suc n) m xs ys h l =
      subst
        (λ z.
          drain value_of max_bytes (suc m) (xs ++ ys)
          ≡ resume z ys (drain value_of max_bytes (suc m)))
        (sym (drain-suc n xs))
        (append_turn (turn value_of max_bytes xs) (turn value_of max_bytes (xs ++ ys)) n m xs ys
          refl (turn-Extends xs ys) (turn-Shrinks xs) l
          (λ r k.
            drain-append n m r ys (omega (arith, h, k))
              (omega (arith, l, k, length-append r ys, length-append xs ys))))

  abbrev Waits : Drained → Bytes → Type ℓ
  Waits (throw e, r) bs = Unit
  Waits (ok vs, r) bs = (turn value_of max_bytes r ≡ wait) × (length r ≤ length bs)

  value-Waits :
      (v : A) (x : Drained) (r bs : Bytes)
      → length r < length bs
      → Waits x r
      → Waits (with_value v x) bs
  value-Waits v (throw e, q) r bs l w = tt
  value-Waits v (ok vs, q) r bs l w = (w.0, omega (arith, w.1, l))

  turn-Waits :
      (t : Turn A) (n : ℕ) (bs : Bytes)
      → turn value_of max_bytes bs ≡ t
      → Shrinks t (length bs)
      → ((r : Bytes) → length r < length bs → Waits (drain value_of max_bytes n r) r)
      → Waits (on_turn t bs (λ r. drain value_of max_bytes n r)) bs
  turn-Waits wait n bs e s h = (e, omega arith)
  turn-Waits (fail f r) n bs e s h = tt
  turn-Waits (frame v r) n bs e s h = value-Waits v (drain value_of max_bytes n r) r bs s (h r s)

  -- What a push keeps is too short for a frame, and no longer than what it was given.
  drain-Waits : (n : ℕ) (bs : Bytes) → length bs < n → Waits (drain value_of max_bytes n bs) bs
  unfolding drain
  drain-Waits zero bs h = absurd (omega (arith, h))
  drain-Waits (suc n) bs h =
      turn-Waits (turn value_of max_bytes bs) n bs refl (turn-Shrinks bs)
        (λ r k. drain-Waits n r (omega (arith, h, k)))

  before-fst :
      (vs : List A) (x y : Drained) → x.0 ≡ y.0 → (before_values vs x).0 ≡ (before_values vs y).0
  before-fst vs (throw e, r) (throw f, q) p = p
  before-fst vs (throw e, r) (ok ws, q) p = cc
  before-fst vs (ok us, r) (throw f, q) p = cc
  before-fst vs (ok us, r) (ok ws, q) p = ap (more vs) p
    where
      more : List A → FrameResult (List A) → FrameResult (List A)
      more vs (throw e) = throw e
      more vs (ok ws) = ok (vs ++ ws)

  drained_wait :
      (n : ℕ) (bs : Bytes)
      → turn value_of max_bytes bs ≡ wait
      → drain value_of max_bytes (suc n) bs ≡ (ok [], bs)
  unfolding drain
  drained_wait n bs e = rw e refl

  then_more :
      (x : Drained) (cs : List Bytes) (m : ℕ) (bs : Bytes)
      → Waits x bs
      → ((r : Bytes)
          → turn value_of max_bytes r ≡ wait
          → length r ≤ length bs
          → (receive value_of max_bytes cs r).0
            ≡ (drain value_of max_bytes (suc m) (r ++ concat cs)).0)
      → (and_then x (λ r. receive value_of max_bytes cs r)).0
        ≡ (resume x (concat cs) (drain value_of max_bytes (suc m))).0
  then_more (throw e, r) cs m bs w h = refl
  then_more (ok vs, r) cs m bs w h = before-fst vs _ _ (h r w.0 w.1)

  receive-drain :
      (cs : List Bytes) (buffer : Bytes) (m : ℕ)
      → turn value_of max_bytes buffer ≡ wait
      → length (buffer ++ concat cs) < suc m
      → (receive value_of max_bytes cs buffer).0
        ≡ (drain value_of max_bytes (suc m) (buffer ++ concat cs)).0
  unfolding receive push
  receive-drain [] buffer m e l = rw (append_nil buffer, drained_wait m buffer e) refl
  receive-drain (c ∷ cs) buffer m e l =
      let whole : (buffer ++ c) ++ concat cs ≡ buffer ++ (c ++ concat cs) =
        append_assoc buffer c (concat cs) in
      let shorter : length ((buffer ++ c) ++ concat cs) < suc m =
        subst (λ b. length b < suc m) (sym whole) l in
      let n : ℕ = suc (length (buffer ++ c)) in
      let cut = drain-append n m (buffer ++ c) (concat cs) (omega arith) shorter in
      then_more (drain value_of max_bytes n (buffer ++ c)) cs m (buffer ++ c)
        (drain-Waits n (buffer ++ c) (omega arith))
        (λ r w k. receive-drain cs r m w (
          omega (
            arith,
            shorter,
            k,
            length-append r (concat cs),
            length-append (buffer ++ c) (concat cs),
          )))
      ∙ sym (ap (λ x. x.0) cut)
      ∙ ap (λ b. (drain value_of max_bytes (suc m) b).0) whole

  pub receive-push :
      (cs : List Bytes) (buffer : Bytes)
      → turn value_of max_bytes buffer ≡ wait
      → (receive value_of max_bytes cs buffer).0 ≡ (push value_of max_bytes (concat cs) buffer).0
  unfolding push
  receive-push cs buffer e = receive-drain cs buffer (length (buffer ++ concat cs)) e (omega arith)

  -- The values of a stream that the decoder takes to its end, or its error.
  abbrev pub Delivers : FrameResult (List A) → List A × Option FrameError → Type ℓ
  Delivers (ok vs) d = d ≡ (vs, none)
  Delivers (throw e) d = (vs : List A) × (d ≡ (vs, some e))

  after-Delivers :
      (x : Drained) (f : Bytes → Drained) (g : Bytes → List A × Option FrameError)
      → ((r : Bytes) → Delivers (f r).0 (g r))
      → Delivers (and_then x f).0 (after x g)
  after-Delivers (throw e, r) f g h = ([], refl)
  after-Delivers (ok vs, r) f g h = values_first (f r) (h r)
    where
      values_first :
          (y : Drained)
          → Delivers y.0 (g r)
          → Delivers (before_values vs y).0 (vs ++ (g r).0, (g r).1)
      values_first (throw e, q) k = (vs ++ k.0, ap (λ d. (vs ++ d.0, d.1)) k.1)
      values_first (ok ws, q) k = ap (λ d. (vs ++ d.0, d.1)) k

  receive-Delivers :
      (cs : List Bytes) (buffer : Bytes)
      → Delivers (receive value_of max_bytes cs buffer).0 (deliver value_of max_bytes cs buffer)
  unfolding receive deliver
  receive-Delivers [] buffer = refl
  receive-Delivers (c ∷ cs) buffer =
      after-Delivers (push value_of max_bytes c buffer) (receive value_of max_bytes cs)
        (deliver value_of max_bytes cs) (λ r. receive-Delivers cs r)

  -- From a buffer that holds no whole frame, a stream that arrives in chunks gives what it gives in one
  -- piece: where that is a list of values the chunks deliver the same values and no error, and where it
  -- is an error the chunks end in the same error. Which values come before an error depends on where the
  -- stream was cut, and is not said.
  pub push-Delivers :
      (cs : List Bytes) (buffer : Bytes)
      → turn value_of max_bytes buffer ≡ wait
      → Delivers
          (push value_of max_bytes (concat cs) buffer).0
          (deliver value_of max_bytes cs buffer)
  push-Delivers cs buffer e =
      subst (λ x. Delivers x (deliver value_of max_bytes cs buffer)) (receive-push cs buffer e)
        (receive-Delivers cs buffer)
