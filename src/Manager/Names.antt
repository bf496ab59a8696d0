-- ===== src/Manager/Names.antt =====
-- Names and their parts: `sprintf("%s.%d")` of src/manager.c against the `strtok` of `get_node`.
use netemul.Base.{
  ℕ, zero, suc, ◌+◌, ◌/◌, ◌%◌, ◌≡◌, ◌≢◌, refl, false, Option, none, some, [], ◌∷◌, ◌++◌, arith, ltb,
  Bool-cases, inl, inr, decimal, length, ap, length-append, digits,
}
use netemul.Node.{Name}
use netemul.Manager.{dot, port_name, split_dot, skip_dots, tokens, optional}

-- No byte of the text is a dot.
abbrev pub NoDots : Name → Type 0
NoDots [] = Unit
NoDots (c ∷ s) = (c ≢ dot) × NoDots s

NoDots-append : (s t : Name) → NoDots s → NoDots t → NoDots (s ++ t)
NoDots-append [] t hs ht = ht
NoDots-append (c ∷ s) t hs ht = (hs.0, NoDots-append s t hs.1 ht)

digits-NoDots : (f n : ℕ) → NoDots (digits f n)
unfolding digits
digits-NoDots zero n = tt
digits-NoDots (suc f) n = elim (Bool-cases (ltb n 10)) [
  | inl y ↦ rw (y, digits) ((λ q. omega arith), tt)
  | inr m ↦
      rw (m, digits)
        (NoDots-append (digits f (n / 10)) _ (digits-NoDots f (n / 10)) ((λ q. omega arith), tt))
]

pub decimal-NoDots : (n : ℕ) → NoDots (decimal n)
unfolding decimal
decimal-NoDots n = digits-NoDots (suc n) n

split_dot-NoDots : (s t : Name) → NoDots s → split_dot (s ++ dot ∷ t) ≡ (s, t)
unfolding split_dot
split_dot-NoDots [] t h = refl
split_dot-NoDots (c ∷ s) t h = ground (arith, split_dot-NoDots s t h.1)

split_dot_self : (s : Name) → NoDots s → split_dot s ≡ (s, [])
unfolding split_dot
split_dot_self [] h = refl
split_dot_self (c ∷ s) h = ground (arith, split_dot_self s h.1)

pub digits-ne-nil : (f n : ℕ) → digits (suc f) n ≢ []
unfolding digits
digits-ne-nil f n q = elim (Bool-cases (ltb n 10)) [
  | inl y ↦ ground arith
  | inr m ↦
      absurd (
        omega
          (arith, ap length q, length-append (digits f (n / 10)) ((b'0' + n % 10) ∷ []), long m))
]
  where
    long : (ltb n 10 ≡ false) → length (digits (suc f) n) ≡ length (digits f (n / 10)) + 1
    long m = rw (m, digits) (length-append (digits f (n / 10)) _)

skip_dots-cons : (c : ℕ) (s : Name) → c ≢ dot → skip_dots (c ∷ s) ≡ ([], c ∷ s)
unfolding skip_dots
skip_dots-cons c s h = ground arith

skip_dots-NoDots : (s : Name) → NoDots s → skip_dots s ≡ ([], s)
unfolding skip_dots
skip_dots-NoDots [] h = refl
skip_dots-NoDots (c ∷ s) h = skip_dots-cons c s h.0

optional-digits : (f n : ℕ) → optional (digits (suc f) n) ≡ some (digits (suc f) n)
optional-digits f n = go (digits (suc f) n) (digits-ne-nil f n)
  where
    go : (s : Name) → s ≢ [] → optional s ≡ some s
    go [] h = absurd (h refl)
    go (c ∷ s) h = refl

-- A port's name is taken apart into its node's name and its number.
pub tokens-port_name :
    (c : ℕ) (s : Name) (i : ℕ)
    → NoDots (c ∷ s)
    → tokens (port_name (c ∷ s) i) ≡ (c ∷ s, some (decimal i))
unfolding tokens port_name decimal
tokens-port_name c s i h =
    rw
      (
        skip_dots-cons c (s ++ dot ∷ digits (suc i) i) h.0,
        tokens,
        split_dot-NoDots (c ∷ s) (digits (suc i) i) h,
        skip_dots-NoDots (digits (suc i) i) (digits-NoDots (suc i) i),
        split_dot_self (digits (suc i) i) (digits-NoDots (suc i) i),
      )
      (ap (λ (o : Option Name). (c ∷ s, o)) (optional-digits i i))

-- A node's name is one token.
pub tokens-name : (c : ℕ) (s : Name) → NoDots (c ∷ s) → tokens (c ∷ s) ≡ (c ∷ s, none)
unfolding tokens
tokens-name c s h = rw (skip_dots-cons c s h.0, tokens, split_dot_self (c ∷ s) h) refl
