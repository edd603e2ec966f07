-- ===== src/Pk/Start.antt =====
-- pk.c: the arguments that the host gives, the stack of the program, and its first trap frame. The
-- buffer `args` is on the kernel's stack, and what stands in it are words and strings in `byte`. A
-- copy to the stack of the program touches its pages first, as a store of the kernel does. What sets
-- registers of the machine alone is left out; `Clock` and `sstatus` are what is read from them.
pub mod Stack
use boom_stop.Base.{
  ℕ, zero, suc, ◌+◌, ◌-◌, ◌*◌, ◌/◌, ◌%◌, ◌^◌, Bool, true, false, not, ◌&&◌, List, [], ◌∷◌, update,
  u64, sub64, ltb, ◌==◌, if◌then◌else◌, bit_and, bit_or,
}
use boom_stop.Base.Cmd.{Cmd, ok, panic, halt, pure, ◌>>=◌, ◌>>◌, modify, kassert}
use boom_stop.Pk.Frontend.{Host, CString, request, frontend_syscall}
use boom_stop.Pk.Mmap.State.{Kernel, Current, pgsize, set_bytes}
use boom_stop.Pk.Mmap.Prot.{prot_write}
use boom_stop.Pk.Access.{ask, byte_of, pa_of, put_long, populate_mapping}
use boom_stop.Pk.Trap.{Trapframe}
use boom_stop.Pk.Elf.{field, load_elf}
use boom_stop.Util.Text.{strlen}

abbrev pub max_args : ℕ
max_args = 256

abbrev pub arg_bytes : ℕ
arg_bytes = 2048

-- args->buf[i], which is args->argv[i] too.
abbrev pub arg_word : Kernel → (args i : ℕ) → ℕ
arg_word k args i = field k.byte (args + 8 * i) 8

abbrev pub set_arg : (args i w : ℕ) → Kernel → Kernel
set_arg args i w = set_bytes (args + 8 * i) 8 (byte_of w)

-- On the option at address `s`: 's' asks for the counts of cycles, 'p' turns demand paging off.
unfoldable pub handle_option : (s : ℕ) → Cmd Kernel (Unit {0})
handle_option s k =
    if k.byte (s + 1) == 115
    then ok tt (record k { current = record (k.current) { cycle0 = 1 } })
    else if k.byte (s + 1) == 112
    then ok tt (record k { demand_paging = false })
    else panic

-- The loop over the flags, from argument `arg` on, of which `left` are left.
unfoldable pub skip_options : (args left arg : ℕ) → Cmd Kernel ℕ
skip_options args zero arg k = ok arg k
skip_options args (suc left) arg k =
    let s = arg_word k args (1 + arg) in
    if k.byte s == 45 then (do handle_option s; skip_options args left (arg + 1)) k else ok arg k

unfoldable pub move_args : (args arg left i : ℕ) → Cmd Kernel (Unit {0})
move_args args arg zero i = pure tt
move_args args arg (suc left) i = do
  modify (λ k. set_arg args i (arg_word k args (1 + arg + i)) k)
  move_args args arg left (i + 1)

-- The host writes the number of arguments, their addresses and the strings.
unfoldable pub parse_args : Host → (args : ℕ) → Cmd Kernel ℕ
parse_args host args = do
  r ← ask host (λ k. request 2011 (pa_of k args) arg_bytes 0 0 0 0 0)
  kassert (r == 0)
  modify (λ k. set_bytes args arg_bytes (host.bytes k.io.calls) k)
  λ k.
      (let argc = arg_word k args 0 in
          do
            arg ← skip_options args (argc - 1) 1
            move_args args arg (argc - arg) 0
            pure (sub64 argc arg))
        k

-- memcpy from the kernel's memory to the program's.
unfoldable pub copy_to_user : Host → (dest src len : ℕ) → Cmd Kernel (Unit {0})
copy_to_user host dest src len = do
  (if len == 0 then pure tt else populate_mapping host dest len prot_write)
  modify (λ k. set_bytes (pa_of k dest) len (λ i. k.byte (src + i)) k)

-- The argument strings, each below the one before; the addresses replace those in `argv`.
unfoldable pub copy_args : Host → (args left i stack_top : ℕ) → Cmd Kernel ℕ
copy_args host args zero i stack_top k = ok stack_top k
copy_args host args (suc left) i stack_top k =
    let s = arg_word k args i in
    elim (strlen arg_bytes s k.byte) [
      | panic ↦ panic
      | ok size bytes ↦
          (let top = sub64 stack_top (size + 1) in
              do
                copy_to_user host top s (size + 1)
                modify (set_arg args i top)
                copy_args host args left (i + 1) top)
            k
    ]

-- stack_top &= -sizeof(void*)
abbrev pub align_words : ℕ → ℕ
align_words top = bit_and top (2 ^ 64 - 8)

-- The stack pointer below `top`, with room for the count, the pointers, two zeros and the pairs of
-- the auxiliary vector.
abbrev pub stack_pointer : (top argc naux : ℕ) → ℕ
stack_pointer top argc naux =
    bit_and (sub64 top (u64 ((1 + argc + 1 + 0 + 1 + 2 * naux) * 8))) (2 ^ 64 - 16)

unfoldable pub push_all : Host → List ℕ → (sp : ℕ) → Cmd Kernel (Unit {0})
push_all host [] sp = pure tt
push_all host (w ∷ ws) sp = do put_long host sp w; push_all host ws (u64 (sp + 8))

unfoldable pub push_args : Host → (args left i sp : ℕ) → Cmd Kernel ℕ
push_args host args zero i sp k = ok sp k
push_args host args (suc left) i sp k =
    (do put_long host sp (arg_word k args i); push_args host args left (i + 1) (u64 (sp + 8))) k

-- The keys and values of the auxiliary vector, AT_NULL last.
abbrev pub aux : Current → (random : ℕ) → List ℕ
aux c random =
    9 ∷ c.entry ∷ 5 ∷ c.phnum ∷ 4 ∷ c.phent ∷ 3 ∷ c.phdr ∷ 6 ∷ pgsize ∷ 23 ∷ 0 ∷ 25 ∷ random ∷ 0 ∷ 0
    ∷ []

abbrev pub naux : ℕ
naux = 8

-- STACK_INIT, with no environment.
unfoldable pub stack_init : Host → (args argc top : ℕ) → Cmd Kernel ℕ
stack_init host args argc top k =
    let c = k.current in
    let sp = stack_pointer top argc naux in
    (do
      put_long host sp argc
      after ← push_args host args argc 0 (u64 (sp + 8))
      push_all host (0 ∷ 0 ∷ aux c top) after
      pure sp)
      k

pub record Clock : Type 0 where
  pub time : ℕ
  pub cycle : ℕ
  pub instret : ℕ

unfoldable pub start_clock : Clock → Kernel → Kernel
start_clock clock k = if k.current.cycle0 == 0 then k else record k {
  current = record (k.current) {
    time0 = clock.time;
    cycle0 = clock.cycle;
    instret0 = clock.instret;
  };
}

-- SSTATUS_SPP is 0x100, SSTATUS_SIE 2, SSTATUS_SPIE 0x20.
unfoldable pub init_tf : (sstatus pc sp : ℕ) → Trapframe
init_tf sstatus pc sp = record {
  gpr = update (λ _. 0) 2 sp;
  status = bit_or (bit_and (bit_and sstatus (2 ^ 64 - 1 - 0x100)) (2 ^ 64 - 1 - 2)) 0x20;
  epc = pc;
  badvaddr = 0;
  cause = 0;
  insn = 0;
}

-- The frame with which `start_user` enters the program.
unfoldable pub run_loaded_program : Host → Clock → (sstatus args argc : ℕ) → Cmd Kernel Trapframe
run_loaded_program host clock sstatus args argc k0 =
    let top = sub64 k0.current.stack_top k0.current.phdr_size in
    (do
      copy_to_user host top k0.current.phdr k0.current.phdr_size
      modify (λ k. record k { current = record (k.current) { phdr = top } })
      low ← copy_args host args argc 0 top
      sp ← stack_init host args argc (align_words low)
      modify (start_clock clock)
      λ k. ok (init_tf sstatus k.current.entry sp) k)
      k0

abbrev pub phdrs_bytes : ℕ
phdrs_bytes = 1024

-- The program that the first argument names.
unfoldable pub load_first : Host → (args eh : ℕ) → Cmd Kernel (Unit {0})
load_first host args eh k =
    let s = arg_word k args 0 in
    elim (strlen arg_bytes s k.byte) [
      | panic ↦ panic
      | ok size bytes ↦ load_elf host eh (record { addr = s; size = size + 1 }) k
    ]

-- `phdrs`, `args` and `eh` are the addresses of the buffers on the kernel's stack.
unfoldable pub rest_of_boot_loader :
    Host → Clock → (sstatus args phdrs eh : ℕ) → Cmd Kernel Trapframe
rest_of_boot_loader host clock sstatus args phdrs eh = do
  argc ← parse_args host args
  kassert (not (argc == 0))
  modify (λ k. record k { current = record (k.current) { phdr = phdrs; phdr_size = phdrs_bytes } })
  load_first host args eh
  run_loaded_program host clock sstatus args argc
