-- ===== src/Crypto/Poly1305.antt =====
-- Poly1305 of `src/crypto/chachapoly.cpp`, in five limbs of 26 bits.
use campello_net.Prelude.{
  ℕ, zero, suc, ◌+◌, ◌-◌, ◌*◌, ◌^◌, bit_and, bit_or, u32, u64, ◌<<◌, ◌>>◌, List, [], ◌∷◌, ◌++◌, ltb,
  ◌==◌, if◌then◌else◌, length, ◌≡◌, refl, get_or, set, take, drop, replicate,
}
use campello_net.Crypto.{store32le}
use campello_net.Crypto.ChaCha.{word}

-- `Poly1305State`; `buffer` has the first `leftover` bytes of the array.
pub record Poly1305State : Type 0 where
  pub r0 : ℕ
  pub r1 : ℕ
  pub r2 : ℕ
  pub r3 : ℕ
  pub r4 : ℕ
  pub h0 : ℕ
  pub h1 : ℕ
  pub h2 : ℕ
  pub h3 : ℕ
  pub h4 : ℕ
  pub pad0 : ℕ
  pub pad1 : ℕ
  pub pad2 : ℕ
  pub pad3 : ℕ
  pub buffer : List ℕ

abbrev pub limb_mask : ℕ
limb_mask = 0x3ffffff

unfoldable pub mask_at : ℕ → ℕ → List ℕ → List ℕ
mask_at i mask bytes = set bytes i (bit_and (get_or bytes i 0) mask)

-- The clamped key.
unfoldable pub clamp : List ℕ → List ℕ
clamp key = mask_at 12 0xfe (
    mask_at 8 0xfe (
      mask_at 4 0xfe
        (mask_at 15 0x0f (mask_at 11 0x0f (mask_at 7 0x0f (mask_at 3 0x0f (take 16 key)))))))

unfoldable pub poly1305_init : List ℕ → Poly1305State
poly1305_init key =
    let t0 = word (clamp key) 0 in
    let t1 = word (clamp key) 4 in
    let t2 = word (clamp key) 8 in
    let t3 = word (clamp key) 12 in
    record {
      r0 = bit_and t0 limb_mask;
      r1 = bit_and (bit_or (t0 >> 26) (u32 (t1 << 6))) limb_mask;
      r2 = bit_and (bit_or (t1 >> 20) (u32 (t2 << 12))) limb_mask;
      r3 = bit_and (bit_or (t2 >> 14) (u32 (t3 << 18))) limb_mask;
      r4 = bit_and (t3 >> 8) limb_mask;
      h0 = 0;
      h1 = 0;
      h2 = 0;
      h3 = 0;
      h4 = 0;
      pad0 = word key 16;
      pad1 = word key 20;
      pad2 = word key 24;
      pad3 = word key 28;
      buffer = [];
    }

-- The block that is added to `h`.
unfoldable pub absorb : ℕ → List ℕ → Poly1305State → Poly1305State
absorb hibit m st =
    let b0 = word m 0 in
    let b1 = word m 4 in
    let b2 = word m 8 in
    let b3 = word m 12 in
    record st {
      h0 = u32 (st.h0 + bit_and b0 limb_mask);
      h1 = u32 (st.h1 + bit_and (bit_or (b0 >> 26) (u32 (b1 << 6))) limb_mask);
      h2 = u32 (st.h2 + bit_and (bit_or (b1 >> 20) (u32 (b2 << 12))) limb_mask);
      h3 = u32 (st.h3 + bit_and (bit_or (b2 >> 14) (u32 (b3 << 18))) limb_mask);
      h4 = u32 (st.h4 + bit_or (b3 >> 8) hibit);
    }

-- The carries from limb to limb, and back to the lowest.
unfoldable pub propagate : (d0 d1 d2 d3 d4 : ℕ) → Poly1305State → Poly1305State
propagate d0 d1 d2 d3 d4 st =
    let e1 = u64 (d1 + u32 (d0 >> 26)) in
    let e2 = u64 (d2 + u32 (e1 >> 26)) in
    let e3 = u64 (d3 + u32 (e2 >> 26)) in
    let e4 = u64 (d4 + u32 (e3 >> 26)) in
    let low = u32 (bit_and (u32 d0) limb_mask + u32 (u32 (e4 >> 26) * 5)) in
    record st {
      h0 = bit_and low limb_mask;
      h1 = u32 (bit_and (u32 e1) limb_mask + (low >> 26));
      h2 = bit_and (u32 e2) limb_mask;
      h3 = bit_and (u32 e3) limb_mask;
      h4 = bit_and (u32 e4) limb_mask;
    }

-- `h *= r`.
unfoldable pub multiply : Poly1305State → Poly1305State
multiply st =
    let s1 = u32 (st.r1 * 5) in
    let s2 = u32 (st.r2 * 5) in
    let s3 = u32 (st.r3 * 5) in
    let s4 = u32 (st.r4 * 5) in
    propagate (u64 (st.h0 * st.r0 + st.h1 * s4 + st.h2 * s3 + st.h3 * s2 + st.h4 * s1))
      (u64 (st.h0 * st.r1 + st.h1 * st.r0 + st.h2 * s4 + st.h3 * s3 + st.h4 * s2))
      (u64 (st.h0 * st.r2 + st.h1 * st.r1 + st.h2 * st.r0 + st.h3 * s4 + st.h4 * s3))
      (u64 (st.h0 * st.r3 + st.h1 * st.r2 + st.h2 * st.r1 + st.h3 * st.r0 + st.h4 * s4))
      (u64 (st.h0 * st.r4 + st.h1 * st.r3 + st.h2 * st.r2 + st.h3 * st.r1 + st.h4 * st.r0)) st

-- `poly1305_blocks` over whole blocks; the number of bytes is fuel enough.
unfoldable pub poly1305_blocks : (fuel : ℕ) → List ℕ → Poly1305State → Poly1305State
poly1305_blocks zero m st = st
poly1305_blocks (suc n) m st =
    let rest = poly1305_blocks n (drop 16 m) (multiply (absorb (2 ^ 24) m st)) in
    if ltb (length m) 16 then st else rest

-- The blocks of an update behind the buffer, and the bytes that are left.
unfoldable pub poly1305_bulk : List ℕ → Poly1305State → Poly1305State
poly1305_bulk m st =
    let n = bit_and (length m) (2 ^ 64 - 16) in
    let bulk = poly1305_blocks n (take n m) st in record bulk { buffer = bulk.buffer ++ drop n m }

unfoldable pub poly1305_update : List ℕ → Poly1305State → Poly1305State
poly1305_update m st =
    let want = 16 - length st.buffer in
    let filled = st.buffer ++ take want m in
    if length st.buffer == 0
    then poly1305_bulk m st
    else if ltb (length filled) 16
    then record st { buffer = filled }
    else poly1305_bulk (drop want m)
        (record (poly1305_blocks 1 filled (record st { buffer = [] })) { buffer = [] })

-- The sum of the packed `h` and `pad`, a word at a time with its carry.
unfoldable pub add_pad : ℕ → List ℕ → List ℕ → List ℕ
add_pad carry (w ∷ ws) (p ∷ ps) =
    store32le (u32 (carry + w + p)) ++ add_pad ((carry + w + p) >> 32) ws ps
add_pad carry _ _ = []

unfoldable pub pack : Poly1305State → List ℕ
pack st =
    bit_or st.h0 (u32 (st.h1 << 26))
    ∷ bit_or (st.h1 >> 6) (u32 (st.h2 << 20))
    ∷ bit_or (st.h2 >> 12) (u32 (st.h3 << 14))
    ∷ bit_or (st.h3 >> 18) (u32 (bit_and st.h4 0xffffff << 8))
    ∷ []

-- A last block that is not full has a 1 behind its bytes.
unfoldable pub poly1305_finish : Poly1305State → List ℕ
poly1305_finish st =
    let padded = st.buffer ++ (1 ∷ replicate (15 - length st.buffer) 0) in
    let last = if length st.buffer == 0 then st else multiply (absorb 0 padded st) in
    add_pad 0 (pack last) (last.pad0 ∷ last.pad1 ∷ last.pad2 ∷ last.pad3 ∷ [])

pub poly1305_finish-length : (st : Poly1305State) → length (poly1305_finish st) ≡ 16
unfolding poly1305_finish pack add_pad store32le
poly1305_finish-length st = refl
