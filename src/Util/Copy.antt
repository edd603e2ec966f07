-- ===== src/Util/Copy.antt =====
-- What `memcpy` and `memset` leave in memory.
use boom_stop.Base.{
  ℕ, ◌+◌, ◌-◌, ◌^◌, ◌≤◌, ◌<◌, zero, suc, true, ◌≡◌, refl, ap, ◌∙◌, ◌⊎◌, inl, inr, fill, ltb, leb,
  ◌&&◌, u64, sub64, arith, Bool-cases, fun_ext,
}
use boom_stop.Base.Cmd.{Returns, returns}
use boom_stop.Util.{Mem, Copying, copy_step, copy_loop, memcpy, both_aligned}

-- The bytes from `dest` on, `n` of them, are those that stood at `src`; all else is as it was.
abbrev copied : Mem → (dest src n : ℕ) → Mem
copied m dest src n = fill m dest n (λ i. m (src + i))

-- No byte of the `len` at `src` is one of the `len` at `dest`.
abbrev pub Apart : (dest src len : ℕ) → Type 0
Apart dest src len = (dest + len ≤ src) ⊎ (src + len ≤ dest)

-- Another `w` bytes behind `n` copied ones.
copied_more :
    (m : Mem) (dest src len n w : ℕ)
    → Apart dest src len
    → n + w ≤ len
    → (a : ℕ)
    → fill (copied m dest src n) (dest + n) w (λ i. copied m dest src n (src + n + i)) a
      ≡ copied m dest src (n + w) a
copied_more m dest src len n w apart le a =
    elim (Bool-cases (leb (dest + n) a && ltb a (dest + n + w))) [
      | inl t ↦
          let j : src + n + (a - (dest + n)) ≡ src + (a - dest) = ground arith in
          let same : copied m dest src n (src + (a - dest)) ≡ m (src + (a - dest)) = elim apart [
            | inl l ↦ ground arith
            | inr l ↦ ground arith
          ] in
          let inside : (leb dest a && ltb a (dest + (n + w))) ≡ true = ground arith in
          rw (t, inside, j, same)
      | inr f ↦ ground arith
    ]

-- The variables after `n` bytes.
record At (m : Mem) (dest src n : ℕ) (c : Copying) : Type 0 where
  same_mem : c.mem ≡ copied m dest src n
  at_d : c.d ≡ dest + n
  at_s : c.s ≡ src + n

record Stopped (m : Mem) (dest src len n stop fuel : ℕ) (c : Copying) : Type 0 where
  count : ℕ
  least : n ≤ count
  most : count ≤ len
  at : At m dest src count c
  done : len ≤ fuel + n → stop ≤ dest + count

copy_step-At :
    (m : Mem) (dest src len n w : ℕ) (c : Copying)
    → Apart dest src len
    → dest + len < 2 ^ 64
    → src + len < 2 ^ 64
    → n + w ≤ len
    → At m dest src n c
    → At m dest src (n + w) (copy_step w c)
copy_step-At m dest src len n w c apart d_fits s_fits le at = record {
  same_mem = rw (at.same_mem, at.at_d, at.at_s) (fun_ext (copied_more m dest src len n w apart le));
  at_d = rw at.at_d (omega arith);
  at_s = rw at.at_s (omega arith);
}

copy_loop-Stopped :
    (m : Mem) (dest src len w stop fuel n : ℕ) (c : Copying)
    → Apart dest src len
    → dest + len < 2 ^ 64
    → src + len < 2 ^ 64
    → 0 < w
    → stop + w ≤ dest + len + 1
    → n ≤ len
    → At m dest src n c
    → Stopped m dest src len n stop fuel (copy_loop w fuel stop c)
unfolding copy_loop
copy_loop-Stopped m dest src len w stop zero n c apart d_fits s_fits pos before le at = record {
  count = n;
  least = omega arith;
  most = le;
  at = at;
  done = λ e. omega arith;
}
copy_loop-Stopped m dest src len w stop (suc fuel) n c apart d_fits s_fits pos before le at =
    elim (Bool-cases (ltb c.d stop)) [
      | inl t ↦
          let room : n + w ≤ len = ground (arith, at.at_d) in
          let next = copy_step-At m dest src len n w c apart d_fits s_fits room at in
          let r =
            copy_loop-Stopped m dest src len w stop fuel (n + w) (copy_step w c) apart d_fits s_fits
              pos before room next in
          rw t (record {
            count = r.count;
            least = omega (arith, r.least);
            most = r.most;
            at = r.at;
            done = λ e. r.done (omega arith);
          })
      | inr f ↦ rw f (record {
        count = n;
        least = omega arith;
        most = le;
        at = at;
        done = λ e. ground (arith, at.at_d);
      })
    ]

byte_loop_lem :
    (m : Mem) (dest src len n : ℕ) (c : Copying)
    → Apart dest src len
    → dest + len < 2 ^ 64
    → src + len < 2 ^ 64
    → n ≤ len
    → At m dest src n c
    → (copy_loop 1 len (u64 (dest + len)) c).mem ≡ copied m dest src len
byte_loop_lem m dest src len n c apart d_fits s_fits le at =
    let r =
      copy_loop-Stopped m dest src len 1 (u64 (dest + len)) len n c apart d_fits s_fits
        (omega arith) (omega arith) le at in
    let all : r.count ≡ len = omega (arith, r.most, r.done (omega arith)) in
    r.at.same_mem ∙ ap (copied m dest src) all

-- With areas that do not overlap and do not pass the end of the address space, and a `dest` that is
-- not in its first word, `memcpy` returns `dest` and leaves the bytes of `src` at `dest`, whether it
-- copies words or bytes, and all other bytes as they were.
pub memcpy-copies :
    (m : Mem) (dest src len : ℕ)
    → Apart dest src len
    → dest + len < 2 ^ 64
    → src + len < 2 ^ 64
    → 8 ≤ dest
    → Returns
        (λ r m'. (r ≡ dest) × (m' ≡ fill m dest len (λ i. m (src + i))))
        (memcpy dest src len m)
unfolding memcpy
memcpy-copies m dest src len apart d_fits s_fits pos =
    let start : Copying = record { mem = m; d = dest; s = src } in
    let at : At m dest src 0 start = record {
      same_mem = fun_ext λ a. ground arith;
      at_d = omega arith;
      at_s = omega arith;
    } in
    elim (Bool-cases (both_aligned dest src)) [
      | inl t ↦
          let r =
            copy_loop-Stopped m dest src len 8 (sub64 (u64 (dest + len)) 7) len 0 start apart d_fits
              s_fits (omega arith) (omega arith) (omega arith) at in
          rw t
            (returns (refl, byte_loop_lem m dest src len r.count _ apart d_fits s_fits r.most r.at))
      | inr f ↦ rw f (
          returns (refl, byte_loop_lem m dest src len 0 start apart d_fits s_fits (omega arith) at))
    ]
