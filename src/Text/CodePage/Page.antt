-- ===== src/Text/CodePage/Page.antt =====
-- What a code page of single bytes is, apart from include/windows_1251.hpp and include/windows_1252.hpp:
-- the character of each byte, and the bytes that an encoder knows.
use worms2lobby_server_cpp.Base.{
  ℕ, zero, suc, ◌≤◌, ◌<◌, ◌≡◌, sym, ap, ◌∙◌, arith, ◌==◌, ltb, Bool, true, false, ◌&&◌,
  if◌then◌else◌, ◌⊎◌, inl, inr, Bool-cases,
}

module _ (page : ℕ → ℕ) (is_known : ℕ → Bool) where
  -- The last of the first `n` bytes that stands for a character and is known, or the question mark.
  abbrev pub search : ℕ → ℕ → ℕ
  search cp zero = b'?'
  search cp (suc n) = if is_known n && page n == cp then n else search cp n

  abbrev pub byte_of : ℕ → ℕ
  byte_of cp = search cp 256

  -- A function that takes the character of each known byte to the byte, and any other to the
  -- question mark.
  pub record IsEncoder (from : ℕ → ℕ) : Type 0 where
    pub known : (c : ℕ) → c < 256 → is_known c ≡ true → from (page c) ≡ c
    pub only_known :
        (cp : ℕ)
        → (from cp ≡ b'?') ⊎ ((from cp < 256) × (is_known (from cp) ≡ true) × (page (from cp) ≡ cp))

  -- The same as a test, for tables.
  pub answer_tested :
      (b cp : ℕ)
      → (ltb b 256 && is_known b && page b == cp) ≡ true
      → (b ≡ b'?') ⊎ ((b < 256) × (is_known b ≡ true) × (page b ≡ cp))
  answer_tested b cp h = inr (ground arith, ground arith, ground arith)

  -- An answer that is a known byte of the page.
  pub answer_known :
      (b c cp : ℕ)
      → b ≡ c
      → (c < 256) × (is_known c ≡ true) × (page c ≡ cp)
      → (b ≡ b'?') ⊎ ((b < 256) × (is_known b ≡ true) × (page b ≡ cp))
  answer_known b c cp e h = rw e (inr h)

  module _ (from : ℕ → ℕ) (i : IsEncoder from) where
    -- A byte that is passed over is not the answer.
    narrowed :
        (cp n : ℕ)
        → (is_known n && page n == cp) ≡ false
        → (from cp < suc n) ⊎ (from cp ≡ b'?')
        → (from cp < n) ⊎ (from cp ≡ b'?')
    narrowed cp n e (inr h) = inr h
    narrowed cp n e (inl h) = elim (Bool-cases (from cp == n)) [
      | inr f ↦ inl (ground arith)
      | inl f ↦ elim (i.only_known cp) [
        | inl q ↦ inr q
        | inr (l, k, p) ↦
            let s : from cp ≡ n = ground arith in
            let k' : is_known n ≡ true = ap is_known (sym s) ∙ k in
            let p' : page n ≡ cp = ap page (sym s) ∙ p in absurd (ground arith)
      ]
    ]

    search-from : (cp n : ℕ) → n ≤ 256 → (from cp < n) ⊎ (from cp ≡ b'?') → from cp ≡ search cp n
    search-from cp zero l (inl h) = absurd (omega arith)
    search-from cp zero l (inr h) = h
    search-from cp (suc n) l h = elim (Bool-cases (is_known n && page n == cp)) [
      | inl e ↦
          let k : is_known n ≡ true = ground arith in
          let p : page n ≡ cp = ground arith in rw e (ap from (sym p) ∙ i.known n (omega arith) k)
      | inr e ↦ rw e (search-from cp n (omega arith) (narrowed cp n e h))
    ]

    -- What an encoder makes of a character is pinned by the page.
    pub IsEncoder-byte_of : (cp : ℕ) → from cp ≡ byte_of cp
    IsEncoder-byte_of cp = elim (i.only_known cp) [
      | inl q ↦ search-from cp 256 (omega arith) (inr q)
      | inr (l, k, p) ↦ search-from cp 256 (omega arith) (inl l)
    ]
