-- ===== src/Packet/Rules.antt =====
-- How many bytes a parser of the wire format takes, and whether they are there: the rules for the
-- steps of src/worms_packet.cpp and src/session_info.cpp.
use worms2lobby_server_cpp.Base.{
  ℕ, ◌+◌, ◌≤◌, ◌<◌, ◌≡◌, refl, sym, subst, arith, leb, le→leb, leb→le, Bool, true, false, List, [],
  ◌∷◌, length, length-drop, Bool-cases, inl, inr, if◌then◌else◌,
}
use native.Mathlib.Nat.{add-zero, zero-add}
use worms2lobby_server_cpp.Packet.Io.{
  PacketIo, ParseResult, ParseError, complete, partial, error, fault, and_then, Parser, ◌>>=◌, ◌>>◌,
  pure, fail, check, need, get_u8, get_u32, get_bytes,
}

module _ {A : Type 0} where
  -- Out of at least `n` bytes exactly `n` were taken, or the content was refused.
  abbrev pub Taken : ℕ → List ℕ → ParseResult A → Type 0
  Taken n s (complete a t) = length s ≡ n + length t
  Taken n s partial = ⊥
  Taken n s (error e) = Unit {0}
  Taken n s fault = ⊥

  abbrev pub Takes : ℕ → Parser A → Type 0
  Takes n p = (s : List ℕ) → n ≤ length s → Taken n s (p s)

  -- At most `n` bytes were taken and the value is in `Q`, or there were fewer than `n`, or the
  -- content was refused.
  abbrev pub Fitting : (A → Type 0) → ℕ → List ℕ → ParseResult A → Type 0
  Fitting Q n s (complete a t) = Q a × (length s ≤ n + length t)
  Fitting Q n s partial = length s < n
  Fitting Q n s (error e) = Unit {0}
  Fitting Q n s fault = ⊥

  abbrev pub Fits : (A → Type 0) → ℕ → Parser A → Type 0
  Fits Q n p = (s : List ℕ) → Fitting Q n s (p s)

abbrev pub Any : {A : Type 0} → A → Type 0
Any a = Unit {0}

module _ {A B : Type 0} where
  Taken-bind :
      (m n : ℕ) (s : List ℕ) (r : ParseResult A) (f : A → Parser B)
      → Taken m s r
      → ((a : A) → Takes n (f a))
      → m + n ≤ length s
      → Taken (m + n) s (and_then r f)
  Taken-bind m n s (complete a t) f h k b = more (f a t) (k a t (omega arith))
    where
      more : (r : ParseResult B) → Taken n t r → Taken (m + n) s r
      more (complete c u) g = omega arith
      more partial g = g
      more (error e) g = g
      more fault g = g
  Taken-bind m n s partial f h k b = h
  Taken-bind m n s (error e) f h k b = h
  Taken-bind m n s fault f h k b = h

  pub Takes-bind :
      (m n : ℕ) (p : Parser A) (f : A → Parser B)
      → Takes m p
      → ((a : A) → Takes n (f a))
      → Takes (m + n) (p >>= f)
  Takes-bind m n p f h k s b = Taken-bind m n s (p s) f (h s (omega arith)) k b

  -- A last step that takes nothing more.
  pub Takes-then :
      (m : ℕ) (p : Parser A) (f : A → Parser B)
      → Takes m p
      → ((a : A) → Takes 0 (f a))
      → Takes m (p >>= f)
  Takes-then m p f h k = subst (λ n. Takes n (p >>= f)) (add-zero m) (Takes-bind m 0 p f h k)

  Fitting-bind :
      (Q : A → Type 0) (R : B → Type 0) (m n : ℕ) (s : List ℕ) (r : ParseResult A)
      (f : A → Parser B)
      → Fitting Q m s r
      → ((a : A) → Q a → Fits R n (f a))
      → Fitting R (m + n) s (and_then r f)
  Fitting-bind Q R m n s (complete a t) f (q, h) k = more (f a t) (k a q t)
    where
      more : (r : ParseResult B) → Fitting R n t r → Fitting R (m + n) s r
      more (complete c u) g = (g.0, omega arith)
      more partial g = omega arith
      more (error e) g = g
      more fault g = g
  Fitting-bind Q R m n s partial f h k = omega arith
  Fitting-bind Q R m n s (error e) f h k = h
  Fitting-bind Q R m n s fault f h k = h

  pub Fits-bind :
      (Q : A → Type 0) (R : B → Type 0) (m n : ℕ) (p : Parser A) (f : A → Parser B)
      → Fits Q m p
      → ((a : A) → Q a → Fits R n (f a))
      → Fits R (m + n) (p >>= f)
  Fits-bind Q R m n p f h k s = Fitting-bind Q R m n s (p s) f (h s) k

  pub Fits-then :
      (Q : A → Type 0) (R : B → Type 0) (m : ℕ) (p : Parser A) (f : A → Parser B)
      → Fits Q m p
      → ((a : A) → Q a → Fits R 0 (f a))
      → Fits R m (p >>= f)
  Fits-then Q R m p f h k = subst (λ n. Fits R n (p >>= f)) (add-zero m) (Fits-bind Q R m 0 p f h k)

module _ {A : Type 0} where
  pub Takes-verdict : (b : Bool) (a : A) (e : ParseError) → Takes 0 (if b then pure a else fail e)
  Takes-verdict true a e s b = omega arith
  Takes-verdict false a e s b = tt

  pub Takes-check :
      (n : ℕ) (b : Bool) (e : ParseError) (p : Parser A) → Takes n p → Takes n (check b e >> p)
  unfolding check
  Takes-check n true e p h s b = h s b
  Takes-check n false e p h s b = tt

  -- A test of the content before the rest.
  pub Fits-check :
      (Q : A → Type 0) (n : ℕ) (b : Bool) (e : ParseError) (p : Parser A)
      → (b ≡ true → Fits Q n p)
      → Fits Q n (check b e >> p)
  unfolding check
  Fits-check Q n true e p h s = h refl s
  Fits-check Q n false e p h s = tt

-- Where `m` bytes are known to be there, a parser takes them and then fits in `n` more.
module _ {B : Type 0} where
  abbrev pub After : ℕ → (B → Type 0) → ℕ → Parser B → Type 0
  After m R n p = (s : List ℕ) → m ≤ length s → Fitting R (m + n) s (p s)

  After-bind' :
      {A : Type 0} (R : B → Type 0) (k m n : ℕ) (s : List ℕ) (r : ParseResult A) (f : A → Parser B)
      → Taken k s r
      → ((a : A) → After m R n (f a))
      → k + m ≤ length s
      → Fitting R (k + m + n) s (and_then r f)
  After-bind' R k m n s (complete a t) f h g b = more (f a t) (g a t (omega arith))
    where
      more : (r : ParseResult B) → Fitting R (m + n) t r → Fitting R (k + m + n) s r
      more (complete c u) w = (w.0, omega arith)
      more partial w = omega arith
      more (error e) w = w
      more fault w = w
  After-bind' R k m n s partial f h g b = absurd h
  After-bind' R k m n s (error e) f h g b = h
  After-bind' R k m n s fault f h g b = h

  pub After-bind :
      {A : Type 0} (R : B → Type 0) (k m n : ℕ) (p : Parser A) (f : A → Parser B)
      → Takes k p
      → ((a : A) → After m R n (f a))
      → After (k + m) R n (p >>= f)
  After-bind R k m n p f h g s b = After-bind' R k m n s (p s) f (h s (omega arith)) g b

  pub After-check :
      (R : B → Type 0) (m n : ℕ) (b : Bool) (e : ParseError) (p : Parser B)
      → After m R n p
      → After m R n (check b e >> p)
  unfolding check
  After-check R m n true e p h s c = h s c
  After-check R m n false e p h s c = tt

  pub After-here : (R : B → Type 0) (n : ℕ) (p : Parser B) → Fits R n p → After 0 R n p
  After-here R n p h s b = subst (λ k. Fitting R k s (p s)) (sym (zero-add n)) (h s)

  pub Fits-mono : (R : B → Type 0) (m n : ℕ) (p : Parser B) → m ≤ n → Fits R m p → Fits R n p
  Fits-mono R m n p b h s = wider (p s) (h s)
    where
      wider : (r : ParseResult B) → Fitting R m s r → Fitting R n s r
      wider (complete c u) w = (w.0, omega arith)
      wider partial w = omega arith
      wider (error e) w = w
      wider fault w = w

module _ (io : PacketIo) where
  pub get_u8-Takes : Takes 1 (get_u8 io)
  unfolding get_u8
  get_u8-Takes [] b = absurd (omega arith)
  get_u8-Takes (a ∷ s) b = rw (io.read_u8_lem a s) (omega arith)

  pub get_u32-Takes : Takes 4 (get_u32 io)
  unfolding get_u32
  get_u32-Takes [] b = absurd (omega arith)
  get_u32-Takes (x ∷ []) b = absurd (omega arith)
  get_u32-Takes (x ∷ y ∷ []) b = absurd (omega arith)
  get_u32-Takes (x ∷ y ∷ z ∷ []) b = absurd (omega arith)
  get_u32-Takes (x ∷ y ∷ z ∷ w ∷ s) b = rw (io.read_u32_lem x y z w s) (omega arith)

  pub get_bytes-Takes : (n : ℕ) → Takes n (get_bytes io n)
  unfolding get_bytes
  get_bytes-Takes n s b = rw (io.read_bytes_lem s n b) (omega (arith, length-drop n s))

  pub need_enough : (n : ℕ) (s : List ℕ) → n ≤ length s → need io n s ≡ complete tt s
  unfolding need
  need_enough n s h = rw (io.can_read_lem s n, need) (rw (le→leb n (length s) h))

  pub need_few : (n : ℕ) (s : List ℕ) → length s < n → need io n s ≡ partial
  unfolding need
  need_few n s h = rw (io.can_read_lem s n, need) (rw few)
    where
      few : leb n (length s) ≡ false
      few = ground arith

  Fitting-of_Taken :
      {A : Type 0} (n : ℕ) (s : List ℕ) (r : ParseResult A) → Taken n s r → Fitting Any n s r
  Fitting-of_Taken n s (complete a t) h = (tt, omega arith)
  Fitting-of_Taken n s partial h = absurd h
  Fitting-of_Taken n s (error e) h = h
  Fitting-of_Taken n s fault h = h

  -- A guarded body reads only what the guard has seen.
  pub need-Fits : {A : Type 0} (n : ℕ) (p : Parser A) → Takes n p → Fits Any n (need io n >> p)
  need-Fits n p h s = elim (Bool-cases (leb n (length s))) [
    | inl e ↦
        let b : n ≤ length s = leb→le _ _ e in
        rw (need_enough n s b) (Fitting-of_Taken n s (p s) (h s b))
    | inr e ↦ let b : length s < n = ground arith in rw (need_few n s b) b
  ]

  pub need-After :
      {B : Type 0} (R : B → Type 0) (m n : ℕ) (p : Parser B)
      → After m R n p
      → Fits R (m + n) (need io m >> p)
  need-After R m n p h s = elim (Bool-cases (leb m (length s))) [
    | inl e ↦ let b : m ≤ length s = leb→le _ _ e in rw (need_enough m s b) (h s b)
    | inr e ↦
        let b : length s < m = ground arith in
        let c : length s < m + n = omega arith in rw (need_few m s b) c
  ]
