-- ===== src/Packet/Steady.antt =====
-- What a parser of the wire format makes of a buffer to which more bytes are appended: the rules for
-- the steps of src/worms_packet.cpp and src/session_info.cpp.
use worms2lobby_server_cpp.Base.{
  ℕ, ◌+◌, ◌≤◌, ◌<◌, ◌≡◌, refl, subst, arith, leb, leb→le, Bool, true, false, List, [], ◌∷◌, ◌++◌,
  length, length-append, length-drop, take-prefix, drop-prefix, Bool-cases, inl, inr, if◌then◌else◌,
}
use worms2lobby_server_cpp.Packet.Io.{
  PacketIo, ParseResult, ParseError, complete, partial, error, fault, and_then, Parser, ◌>>=◌, ◌>>◌,
  pure, fail, check, need, get_u8, get_u32, get_bytes,
}
use worms2lobby_server_cpp.Packet.Rules.{Takes, Taken, need_enough, need_few}

module _ {A : Type 0} where
  -- The result `r` for the bytes `s` took `k` bytes at least, and `r'`, that for the bytes `s ++ t`,
  -- is the same with `t` left over, unless `r` waits for more.
  abbrev pub Extended : ℕ → List ℕ → List ℕ → ParseResult A → ParseResult A → Type 0
  Extended k s t (complete a u) r' = (r' ≡ complete a (u ++ t)) × (k + length u ≤ length s)
  Extended k s t partial r' = Unit {0}
  Extended k s t (error e) r' = r' ≡ error e
  Extended k s t fault r' = Unit {0}

  -- Where `m` bytes are there.
  abbrev pub Steady : ℕ → ℕ → Parser A → Type 0
  Steady m k p = (s t : List ℕ) → m ≤ length s → Extended k s t (p s) (p (s ++ t))

  pub Steady-weaken : (m k : ℕ) (p : Parser A) → Steady m k p → Steady m 0 p
  Steady-weaken m k p h s t b = less (p s) (h s t b)
    where
      less : (r : ParseResult A) → Extended k s t r (p (s ++ t)) → Extended 0 s t r (p (s ++ t))
      less (complete a u) g = (g.0, omega arith)
      less partial g = g
      less (error e) g = g
      less fault g = g

  pub Steady-pure : (m : ℕ) (a : A) → Steady m 0 (pure a)
  Steady-pure m a s t b = (refl, omega arith)

  pub Steady-verdict :
      (m : ℕ) (b : Bool) (a : A) (e : ParseError) → Steady m 0 (if b then pure a else fail e)
  Steady-verdict m true a e s t b = (refl, omega arith)
  Steady-verdict m false a e s t b = refl

  pub Steady-check :
      (m k : ℕ) (b : Bool) (e : ParseError) (p : Parser A)
      → Steady m k p
      → Steady m k (check b e >> p)
  unfolding check
  Steady-check m k true e p h s t b = h s t b
  Steady-check m k false e p h s t b = refl

further :
    {B : Type 0} (k l : ℕ) (s t u : List ℕ) (r r' : ParseResult B)
    → k + length u ≤ length s
    → Extended l u t r r'
    → Extended (k + l) s t r r'
further k l s t u (complete b v) r' h g = (g.0, omega arith)
further k l s t u partial r' h g = g
further k l s t u (error e) r' h g = g
further k l s t u fault r' h g = g

module _ {A B : Type 0} where
  bind-Extended :
      (k l : ℕ) (s t : List ℕ) (r r' : ParseResult A) (f : A → Parser B)
      → Extended k s t r r'
      → ((a : A) (u : List ℕ) → r ≡ complete a u → Extended l u t (f a u) (f a (u ++ t)))
      → Extended (k + l) s t (and_then r f) (and_then r' f)
  bind-Extended k l s t (complete a u) r' f (e, h) g =
      rw e (further k l s t u (f a u) (f a (u ++ t)) h (g a u refl))
  bind-Extended k l s t partial r' f h g = tt
  bind-Extended k l s t (error e) r' f h g = rw h refl
  bind-Extended k l s t fault r' f h g = tt

  pub Steady-bind :
      (m k l : ℕ) (p : Parser A) (f : A → Parser B)
      → Steady m k p
      → ((a : A) → Steady 0 l (f a))
      → Steady m (k + l) (p >>= f)
  Steady-bind m k l p f h g s t b =
      bind-Extended k l s t (p s) (p (s ++ t)) f (h s t b) (λ a u e. g a u t (omega arith))

  -- A first step that takes exactly `k` bytes leaves the others to the rest.
  pub Steady-then :
      (k m l : ℕ) (p : Parser A) (f : A → Parser B)
      → Takes k p
      → Steady k k p
      → ((a : A) → Steady m l (f a))
      → Steady (k + m) (k + l) (p >>= f)
  Steady-then k m l p f taken h g s t b =
      bind-Extended k l s t (p s) (p (s ++ t)) f (h s t (omega arith)) (λ a u e.
        let n : Taken k s (complete a u) = subst (Taken k s) e (taken s (omega arith)) in
        g a u t (omega arith))

module _ (io : PacketIo) where
  pub get_u8-Steady : Steady 1 1 (get_u8 io)
  unfolding get_u8
  get_u8-Steady [] t b = absurd (omega arith)
  get_u8-Steady (a ∷ s) t b = rw (io.read_u8_lem a s, io.read_u8_lem a (s ++ t)) (refl, omega arith)

  pub get_u32-Steady : Steady 4 4 (get_u32 io)
  unfolding get_u32
  get_u32-Steady [] t b = absurd (omega arith)
  get_u32-Steady (x ∷ []) t b = absurd (omega arith)
  get_u32-Steady (x ∷ y ∷ []) t b = absurd (omega arith)
  get_u32-Steady (x ∷ y ∷ z ∷ []) t b = absurd (omega arith)
  get_u32-Steady (x ∷ y ∷ z ∷ w ∷ s) t b =
      rw (io.read_u32_lem x y z w s, io.read_u32_lem x y z w (s ++ t)) (refl, omega arith)

  pub get_bytes-Steady : (n : ℕ) → Steady n n (get_bytes io n)
  unfolding get_bytes
  get_bytes-Steady n s t b =
      let c : n ≤ length (s ++ t) = omega (arith, length-append s t) in
      rw
        (
          io.read_bytes_lem s n b,
          io.read_bytes_lem (s ++ t) n c,
          take-prefix n s t b,
          drop-prefix n s t b,
        )
        (refl, omega (arith, length-drop n s))

  -- The guard asks for more, or all that it guards is there.
  pub need-Steady :
      {A : Type 0} (m k : ℕ) (p : Parser A) → Steady m k p → Steady 0 k (need io m >> p)
  need-Steady m k p h s t b = elim (Bool-cases (leb m (length s))) [
    | inl e ↦
        let c : m ≤ length s = leb→le _ _ e in
        let d : m ≤ length (s ++ t) = omega (arith, length-append s t) in
        rw (need_enough io m s c, need_enough io m (s ++ t) d) (h s t c)
    | inr e ↦ let c : length s < m = ground arith in rw (need_few io m s c) tt
  ]
