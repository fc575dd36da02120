-- ===== src/Ring/Queue.antt =====
-- A ring as the queue of the bytes that it holds.
use native.Mathlib.Nat.{mod-add-mod, mod-eq_of_lt, mod-eq-sub-mod}
use pic8_hal.Common.{
  ℕ, zero, suc, ◌+◌, ◌-◌, ◌%◌, ◌≤◌, ◌<◌, bit_and, ◌≡◌, refl, sym, ap, ◌∙◌, ◌≢◌, inl, inr, List, [],
  ◌∷◌, ◌++◌, arith, ltb, Bool-cases, length, set, get_or, length-set, get_or-set_self,
  get_or-set_ne, u8,
}
use pic8_hal.Ring.{Ring, advance, store, fetch}

-- The indices go round at `sz`, and the mask cuts at `sz`.
pub record IsSize (sz : ℕ) : Type 0 where
  pub positive : 0 < sz
  pub byte : sz ≤ 128
  pub mask : (i : ℕ) → bit_and i (sz - 1) ≡ i % sz

pub record IsValid (sz : ℕ) (r : Ring) : Type 0 where
  pub storage : length r.buf ≡ sz
  pub tail_in : r.tail < sz
  pub fits : r.count ≤ sz
  pub head_at : r.head ≡ (r.tail + r.count) % sz

-- `n` bytes of the buffer, from index `i` on and round at `sz`.
abbrev pub bytes_from : ℕ → List ℕ → ℕ → ℕ → List ℕ
bytes_from sz buf i zero = []
bytes_from sz buf i (suc n) = get_or buf i 0 ∷ bytes_from sz buf ((i + 1) % sz) n

abbrev pub contents : ℕ → Ring → List ℕ
contents sz r = bytes_from sz r.buf r.tail r.count

length-bytes_from : (sz : ℕ) (buf : List ℕ) (i n : ℕ) → length (bytes_from sz buf i n) ≡ n
length-bytes_from sz buf i zero = refl
length-bytes_from sz buf i (suc n) = ap suc (length-bytes_from sz buf ((i + 1) % sz) n)

pub length-contents : (sz : ℕ) (r : Ring) → length (contents sz r) ≡ r.count
length-contents sz r = length-bytes_from sz r.buf r.tail r.count

module _ (sz : ℕ) (size : IsSize sz) where
  advance_lem : (i : ℕ) → advance sz i ≡ (i + 1) % sz
  advance_lem i = omega (arith, size.mask (i + 1), size.byte, size.positive)

  -- Less than one round on is another index.
  ahead-ne : (i n : ℕ) → i < sz → suc n < sz → (i + suc n) % sz ≢ i
  ahead-ne i n hi hn = elim (Bool-cases (ltb (i + suc n) sz)) [
    | inl e ↦ let lt : i + suc n < sz = ground (arith, e) in omega (arith, mod-eq_of_lt lt)
    | inr e ↦
        let ge : sz ≤ i + suc n = ground (arith, e) in
        let small : i + suc n - sz < sz = omega arith in
        omega (arith, mod-eq-sub-mod ge, mod-eq_of_lt small)
  ]

  -- A byte written just behind the bytes from `i` on is one more of them.
  bytes_from-set :
      (buf : List ℕ) (byte n i at : ℕ)
      → length buf ≡ sz
      → i < sz
      → n < sz
      → at ≡ (i + n) % sz
      → bytes_from sz (set buf at byte) i (suc n) ≡ bytes_from sz buf i n ++ byte ∷ []
  bytes_from-set buf byte zero i at hb hi hn e =
      let same : at ≡ i = e ∙ ap (λ k. k % sz) (omega arith) ∙ mod-eq_of_lt hi in
      rw same (ap (λ b. b ∷ []) (get_or-set_self buf i byte 0 (omega arith)))
  bytes_from-set buf byte (suc n) i at hb hi hn e =
      let behind : at ≢ i = (λ same. ahead-ne i n hi hn (sym e ∙ same)) in
      let round : at ≡ ((i + 1) % sz + n) % sz =
        e ∙ ap (λ k. k % sz) (omega arith) ∙ sym (mod-add-mod (i + 1) sz n) in
      let rest =
        bytes_from-set buf byte n ((i + 1) % sz) at hb (omega (arith, size.positive)) (omega arith)
          round in
      rw (get_or-set_ne buf at i byte 0 behind) (ap (λ l. get_or buf i 0 ∷ l) rest)

  module _ (r : Ring) (v : IsValid sz r) where
    -- Storing a byte in a ring with space puts it last.
    pub store-contents :
        (byte : ℕ) → r.count < sz → contents sz (store sz r byte) ≡ contents sz r ++ byte ∷ []
    unfolding store
    store-contents byte h =
        let one_more : u8 (r.count + 1) ≡ suc r.count = omega (arith, size.byte) in
        rw one_more
          (bytes_from-set r.buf byte r.count r.tail r.head v.storage v.tail_in h v.head_at)

    pub store-IsValid : (byte : ℕ) → r.count < sz → IsValid sz (store sz r byte)
    unfolding store
    store-IsValid byte h = record {
      storage = length-set r.buf r.head byte ∙ v.storage;
      tail_in = v.tail_in;
      fits = omega (arith, size.byte);
      head_at =
          let one_more : u8 (r.count + 1) ≡ r.count + 1 = omega (arith, size.byte) in
          advance_lem r.head
          ∙ ap (λ k. (k + 1) % sz) v.head_at
          ∙ mod-add-mod (r.tail + r.count) sz 1
          ∙ ap (λ k. k % sz) (omega (arith, one_more));
    }

    -- Taking a byte out gives the first one, and leaves the others.
    pub fetch-contents : 0 < r.count → contents sz r ≡ (fetch sz r).0 ∷ contents sz (fetch sz r).1
    unfolding fetch
    fetch-contents h =
        let e : r.count ≡ suc (r.count - 1) = omega arith in
        let e' = advance_lem r.tail in
        ap (bytes_from sz r.buf r.tail) e
        ∙ ap (λ t. get_or r.buf r.tail 0 ∷ bytes_from sz r.buf t (r.count - 1)) (sym e')

    pub fetch-IsValid : 0 < r.count → IsValid sz (fetch sz r).1
    unfolding fetch
    fetch-IsValid h = record {
      storage = v.storage;
      tail_in = omega (arith, advance_lem r.tail, size.positive);
      fits = omega (arith, v.fits);
      head_at =
          v.head_at
          ∙ ap (λ k. k % sz) (omega arith)
          ∙ sym (mod-add-mod (r.tail + 1) sz (r.count - 1))
          ∙ ap (λ k. (k + (r.count - 1)) % sz) (sym (advance_lem r.tail));
    }

    pub store-count : (byte : ℕ) → r.count < sz → (store sz r byte).count ≡ r.count + 1
    unfolding store
    store-count byte h = omega (arith, size.byte)

    pub fetch-count : (fetch sz r).1.count ≡ r.count - 1
    unfolding fetch
    fetch-count = refl
