-- ===== src/Machine/Fdt/Texts.antt =====
-- The names that machine/fdt.c looks for, as their bytes.
use boom_stop.Base.{ℕ, List, [], ◌∷◌}

-- "device_type"
abbrev pub device_type_text : List ℕ
device_type_text = 100 ∷ 101 ∷ 118 ∷ 105 ∷ 99 ∷ 101 ∷ 95 ∷ 116 ∷ 121 ∷ 112 ∷ 101 ∷ []

-- "memory"
abbrev pub memory_text : List ℕ
memory_text = 109 ∷ 101 ∷ 109 ∷ 111 ∷ 114 ∷ 121 ∷ []

-- "reg"
abbrev pub reg_text : List ℕ
reg_text = 114 ∷ 101 ∷ 103 ∷ []

-- "cpu"
abbrev pub cpu_text : List ℕ
cpu_text = 99 ∷ 112 ∷ 117 ∷ []

-- "interrupt-controller"
abbrev pub interrupt_controller_text : List ℕ
interrupt_controller_text =
    105 ∷ 110 ∷ 116 ∷ 101 ∷ 114 ∷ 114 ∷ 117 ∷ 112 ∷ 116 ∷ 45 ∷ 99 ∷ 111 ∷ 110 ∷ 116 ∷ 114 ∷ 111
    ∷ 108 ∷ 108 ∷ 101 ∷ 114 ∷ []

-- "#interrupt-cells"
abbrev pub interrupt_cells_text : List ℕ
interrupt_cells_text =
    35 ∷ 105 ∷ 110 ∷ 116 ∷ 101 ∷ 114 ∷ 114 ∷ 117 ∷ 112 ∷ 116 ∷ 45 ∷ 99 ∷ 101 ∷ 108 ∷ 108 ∷ 115 ∷ []

-- "phandle"
abbrev pub phandle_text : List ℕ
phandle_text = 112 ∷ 104 ∷ 97 ∷ 110 ∷ 100 ∷ 108 ∷ 101 ∷ []

-- "compatible"
abbrev pub compatible_text : List ℕ
compatible_text = 99 ∷ 111 ∷ 109 ∷ 112 ∷ 97 ∷ 116 ∷ 105 ∷ 98 ∷ 108 ∷ 101 ∷ []

-- "riscv,clint0"
abbrev pub clint_text : List ℕ
clint_text = 114 ∷ 105 ∷ 115 ∷ 99 ∷ 118 ∷ 44 ∷ 99 ∷ 108 ∷ 105 ∷ 110 ∷ 116 ∷ 48 ∷ []

-- "interrupts-extended"
abbrev pub interrupts_extended_text : List ℕ
interrupts_extended_text =
    105 ∷ 110 ∷ 116 ∷ 101 ∷ 114 ∷ 114 ∷ 117 ∷ 112 ∷ 116 ∷ 115 ∷ 45 ∷ 101 ∷ 120 ∷ 116 ∷ 101 ∷ 110
    ∷ 100 ∷ 101 ∷ 100 ∷ []

-- "riscv,plic0"
abbrev pub plic_text : List ℕ
plic_text = 114 ∷ 105 ∷ 115 ∷ 99 ∷ 118 ∷ 44 ∷ 112 ∷ 108 ∷ 105 ∷ 99 ∷ 48 ∷ []

-- "riscv,ndev"
abbrev pub ndev_text : List ℕ
ndev_text = 114 ∷ 105 ∷ 115 ∷ 99 ∷ 118 ∷ 44 ∷ 110 ∷ 100 ∷ 101 ∷ 118 ∷ []

-- "chosen"
abbrev pub chosen_text : List ℕ
chosen_text = 99 ∷ 104 ∷ 111 ∷ 115 ∷ 101 ∷ 110 ∷ []

-- "riscv,kernel-start"
abbrev pub kernel_start_text : List ℕ
kernel_start_text =
    114 ∷ 105 ∷ 115 ∷ 99 ∷ 118 ∷ 44 ∷ 107 ∷ 101 ∷ 114 ∷ 110 ∷ 101 ∷ 108 ∷ 45 ∷ 115 ∷ 116 ∷ 97 ∷ 114
    ∷ 116 ∷ []

-- "riscv,kernel-end"
abbrev pub kernel_end_text : List ℕ
kernel_end_text =
    114 ∷ 105 ∷ 115 ∷ 99 ∷ 118 ∷ 44 ∷ 107 ∷ 101 ∷ 114 ∷ 110 ∷ 101 ∷ 108 ∷ 45 ∷ 101 ∷ 110 ∷ 100 ∷ []

-- "status"
abbrev pub status_text : List ℕ
status_text = 115 ∷ 116 ∷ 97 ∷ 116 ∷ 117 ∷ 115 ∷ []

-- "mmu-type"
abbrev pub mmu_type_text : List ℕ
mmu_type_text = 109 ∷ 109 ∷ 117 ∷ 45 ∷ 116 ∷ 121 ∷ 112 ∷ 101 ∷ []

-- "okay"
abbrev pub okay_text : List ℕ
okay_text = 111 ∷ 107 ∷ 97 ∷ 121 ∷ []

-- "riscv,sv39"
abbrev pub sv39_text : List ℕ
sv39_text = 114 ∷ 105 ∷ 115 ∷ 99 ∷ 118 ∷ 44 ∷ 115 ∷ 118 ∷ 51 ∷ 57 ∷ []

-- "riscv,sv48"
abbrev pub sv48_text : List ℕ
sv48_text = 114 ∷ 105 ∷ 115 ∷ 99 ∷ 118 ∷ 44 ∷ 115 ∷ 118 ∷ 52 ∷ 56 ∷ []

-- "masked"
abbrev pub masked_text : List ℕ
masked_text = 109 ∷ 97 ∷ 115 ∷ 107 ∷ 101 ∷ 100 ∷ []
