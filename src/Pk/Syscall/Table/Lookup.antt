-- ===== src/Pk/Syscall/Table/Lookup.antt =====
-- The bounds of the two tables cut off no entry.
use boom_stop.Base.{
  ℕ, ◌-◌, ◌^◌, ◌<◌, ◌≤◌, ◌≡◌, refl, false, none, List, [], ◌∷◌, arith, ltb, if◌then◌else◌, sub64,
  Bool-cases, inl, inr,
}
use boom_stop.Pk.Syscall.Table.{
  slot, listed, row, array_size, syscall_table, old_syscall_table, find_syscall,
}

listed-none :
    {A : Type 0} (rows : List (ℕ × A)) (n : ℕ) → array_size rows ≤ n → listed rows n ≡ none
unfolding listed array_size
listed-none [] n h = refl
listed-none ((i, f) ∷ rows) n h = ground (arith, listed-none rows n)

ltb-false : (a b : ℕ) → ltb a b ≡ false → b ≤ a
ltb-false a b h = ground arith

table_size : array_size syscall_table ≡ 262
unfolding array_size syscall_table
table_size = refl

old_table_size : array_size old_syscall_table ≡ 39
unfolding array_size old_syscall_table
old_table_size = refl

-- For every system call number, do_syscall finds what is listed in the first table for that number, or,
-- from OLD_SYSCALL_THRESHOLD on, in the second for the number less the threshold, and NULL where nothing
-- is listed; it never reads a table out of bounds.
pub find_syscall-listed :
    (n : ℕ)
    → n < 2 ^ 64
    → find_syscall n
      ≡ slot (if ltb n 1024 then listed syscall_table n else listed old_syscall_table (n - 1024))
unfolding find_syscall row
find_syscall-listed n small = elim (Bool-cases (ltb n 1024)) [
  | inl low ↦ elim (Bool-cases (ltb n 262)) [
    | inl t ↦ rw (table_size, t, low) refl
    | inr t ↦
        let far : ltb (sub64 n 1024) 39 ≡ false = ground arith in
        let nothing = listed-none syscall_table n (omega (arith, table_size, ltb-false n 262 t)) in
        rw (table_size, old_table_size, t, low, far, nothing) refl
  ]
  | inr high ↦
      let past : ltb n 262 ≡ false = ground arith in
      let q : sub64 n 1024 ≡ n - 1024 = ground arith in
      rw (table_size, old_table_size, past, high, q)
        (elim (Bool-cases (ltb (n - 1024) 39)) [
          | inl t ↦ rw t refl
          | inr t ↦
              let nothing =
                listed-none old_syscall_table (n - 1024)
                  (omega (arith, old_table_size, ltb-false (n - 1024) 39 t)) in
              rw (t, nothing) refl
        ])
]
