-- ===== src/Pk/Mmap/Fault/Demand.antt =====
-- The first fault of a page: its frame is filled, its entry made, and its region has one page less
-- to fill.
use boom_stop.Base.{
  ℕ, ◌+◌, ◌*◌, ◌/◌, ◌-◌, ◌%◌, ◌^◌, ◌<◌, ◌≤◌, ◌≡◌, refl, ◌≢◌, ◌⊎◌, inl, inr, true, false, Option,
  none, some, ◌==◌, if◌then◌else◌, u64, u32, neg, arith, Bool-cases, ap, sym, ◌∙◌, subst, update,
  ==_self,
}
use boom_stop.Base.Cmd.{Returns, returns, Returns-and_then, Returns-mono}
use boom_stop.Pk.Frontend.{Host, va2pa, dram_base}
use boom_stop.Pk.File.{Io, file_decref}
use boom_stop.Pk.Mmap.State.{Vmr, Kernel, pgsize, vmr_index, set_word, on_io-Lifted, lifted}
use boom_stop.Pk.Mmap.Pages.{vmr_decref, decref_opt}
use boom_stop.Pk.Mmap.Walk.{walk, ppn, is_valid, pte_create}
use boom_stop.Pk.Mmap.Prot.{prot_to_type, valid_user_range}
use boom_stop.Pk.Mmap.Fault.{fault_locked, page_in, allows, fault_at, check_perms, fill_frame}
use boom_stop.Pk.Mmap.Fault.Frame.{content, Reads, Filled, fill_frame-Filled}

decref_opt-Returns :
    (host : Host) (o : Option ℕ) (io : Io) → Returns (λ _ _. Unit {0}) (decref_opt host o io)
unfolding decref_opt file_decref
decref_opt-Returns host none io = returns tt
decref_opt-Returns host (some f) io = elim (Bool-cases ((io.files f).refcnt == 2)) [
  | inl t ↦ rw t (returns tt)
  | inr t ↦ rw t (returns tt)
]

-- What `__vmr_decref` of region `i` by one does to the memory and the regions.
pub record Released (i : ℕ) (k k' : Kernel) : Type 0 where
  pub same_mem : k'.mem ≡ k.mem
  pub same_byte : k'.byte ≡ k.byte
  pub same_current : k'.current ≡ k.current
  pub same_lock : k'.vm_lock ≡ k.vm_lock
  pub prot : (k'.vmr i).prot ≡ (k.vmr i).prot
  pub refcnt : (k'.vmr i).refcnt ≡ u32 ((k.vmr i).refcnt + 2 ^ 32 - 1)
  pub others : (j : ℕ) → i ≢ j → k'.vmr j ≡ k.vmr j
  pub rest : k' ≡ record k { io = k'.io; vmr = k'.vmr }

Released-update :
    (i : ℕ) (k k' : Kernel)
    → k'.mem ≡ k.mem
    → k'.byte ≡ k.byte
    → k'.current ≡ k.current
    → k'.vm_lock ≡ k.vm_lock
    → k'.vmr ≡ update k.vmr i (record (k.vmr i) { refcnt = u32 ((k.vmr i).refcnt + 2 ^ 32 - 1) })
    → k' ≡ record k { io = k'.io; vmr = k'.vmr }
    → Released i k k'
Released-update i k k' m b c l v rest =
    let at : k'.vmr i ≡ record (k.vmr i) { refcnt = u32 ((k.vmr i).refcnt + 2 ^ 32 - 1) } =
      ap (λ x. x i) v ∙ rw (==_self i) in
    record {
      same_mem = m;
      same_byte = b;
      same_current = c;
      same_lock = l;
      prot = ap (λ x. x.prot) at;
      refcnt = ap (λ x. x.refcnt) at;
      others = λ j n. ap (λ x. x j) v ∙ (let t : (i == j) ≡ false = ground arith in rw t);
      rest = rest;
    }

rest_of :
    (k : Kernel) {k' : Kernel} (f : ℕ → Vmr) (io : Io)
    → k' ≡ record k { vmr = f; io = io }
    → k' ≡ record k { io = k'.io; vmr = k'.vmr }
rest_of k f io e = e ∙ ap (λ x. record k { io = x.io; vmr = x.vmr }) (sym e)

pub vmr_decref-Released :
    (host : Host) (i : ℕ) (k : Kernel) → Returns (λ _ k'. Released i k k') (vmr_decref host i 1 k)
unfolding vmr_decref
vmr_decref-Released host i k = elim (Bool-cases (u32 ((k.vmr i).refcnt + 2 ^ 32 - 1) == 0)) [
  | inl t ↦ rw t (
      Returns-mono (on_io-Lifted _ _ (decref_opt-Returns host (k.vmr i).file k.io)) λ _ k'. elim [
        | lifted io p e ↦
            Released-update i k k' (ap (λ x. x.mem) e) (ap (λ x. x.byte) e) (ap (λ x. x.current) e)
              (ap (λ x. x.vm_lock) e) (ap (λ x. x.vmr) e) (rest_of k _ io e)
      ])
  | inr t ↦ rw t (returns (Released-update i k _ refl refl refl refl refl refl))
]

-- The frame of a page, and the region that its entry points to.
abbrev pub frame_of : Kernel → ℕ → ℕ
frame_of k page = ppn page + k.io.first_free_paddr / pgsize

abbrev pub region_of : Kernel → ℕ → ℕ
region_of k pte = vmr_index k (k.mem pte)

-- What the first fault of the page with its entry at `pte` leaves.
pub record PagedIn (host : Host) (page pte : ℕ) (k k' : Kernel) : Type 0 where
  pub entry :
      k'.mem pte ≡ pte_create (frame_of k page) (prot_to_type (k.vmr (region_of k pte)).prot true)
  pub other_words : (a : ℕ) → pte ≢ a → k'.mem a ≡ k.mem a
  pub bytes :
      (j : ℕ)
      → j < pgsize
      → k'.byte (frame_of k page * pgsize + j) ≡ content host (k.vmr (region_of k pte)) page k.io j
  pub other_bytes :
      (a : ℕ)
      → (a < frame_of k page * pgsize) ⊎ (frame_of k page * pgsize + pgsize ≤ a)
      → k'.byte a ≡ k.byte a
  pub refcnt :
      (k'.vmr (region_of k pte)).refcnt ≡ u32 ((k.vmr (region_of k pte)).refcnt + 2 ^ 32 - 1)

module _ (host : Host) (page pte : ℕ) (k : Kernel) where
  page_in-PagedIn :
      Reads host (k.vmr (region_of k pte)) page k.io
      → va2pa k.io.first_free_paddr page ≡ frame_of k page * pgsize
      → Returns (λ _ k'. PagedIn host page pte k k') (page_in host page pte k)
  unfolding page_in
  page_in-PagedIn reads there =
      Returns-and_then
        (subst (λ pa. Returns (λ _ k'. Filled host v page pa k1 k') (fill_frame host v page pa k1))
          there (fill_frame-Filled host v page k1 reads))
        λ _ k2 f. Returns-and_then (vmr_decref-Released host i k2) λ _ k3 r. returns (record {
          entry = rw (==_self pte) (
              ap (λ x. pte_create frame (prot_to_type x true))
                (r.prot ∙ ap (λ x. (x i).prot) f.same_vmr));
          other_words = λ a n.
              let t : (pte == a) ≡ false = ground arith in
              rw t (ap (λ x. x a) (r.same_mem ∙ f.same_mem) ∙ rw t);
          bytes = λ j h. ap (λ x. x (frame * pgsize + j)) r.same_byte ∙ f.inside j h;
          other_bytes = λ a h. ap (λ x. x a) r.same_byte ∙ f.outside a h;
          refcnt = r.refcnt ∙ ap (λ x. u32 ((x i).refcnt + 2 ^ 32 - 1)) f.same_vmr;
        })
    where
      i : ℕ
      i = region_of k pte

      v : Vmr
      v = k.vmr i

      frame : ℕ
      frame = frame_of k page

      k1 : Kernel
      k1 = set_word pte (pte_create frame (prot_to_type 3 false)) k

-- The physical address of a page of the program.
va2pa_lem :
    (base page : ℕ)
    → page < dram_base
    → page % pgsize ≡ 0
    → base % pgsize ≡ 0
    → base < 2 ^ 63
    → va2pa base page ≡ (ppn page + base / pgsize) * pgsize
unfolding va2pa
va2pa_lem base page small aligned based fits = ground arith

abbrev pub page_of : ℕ → ℕ
page_of vaddr = u64 (ppn vaddr * pgsize)

lt_of_valid :
    (k : Kernel) (a : ℕ) → a < 2 ^ 64 → valid_user_range k a 1 ≡ true → a < k.current.mmap_max
unfolding valid_user_range
lt_of_valid k a small h = ground arith

fault_at-PagedIn :
    (host : Host) (page prot pte : ℕ) (k : Kernel)
    → k.mem pte ≢ 0
    → is_valid (k.mem pte) ≡ false
    → valid_user_range k page 1 ≡ true
    → Returns (λ _ k'. PagedIn host page pte k k') (page_in host page pte k)
    → Returns
        (λ r k'. PagedIn host page pte k k' × (r ≡ (if allows (k'.mem pte) prot then 0 else neg 1)))
        (fault_at host page prot pte k)
unfolding fault_at check_perms
fault_at-PagedIn host page prot pte k used unfilled valid paged =
    let u : (k.mem pte == 0) ≡ false = ground arith in
    rw (u, valid, unfilled) (Returns-and_then paged λ _ k' p. returns (p, refl))

-- A fault on a page below `mmap_max` that is mapped and not filled yet: the frame of the page holds
-- what its region says, the bytes of the file or zeros, with zeros behind the end of what the host
-- reads; nothing else of the memory is changed; the entry allows what the region does; and the
-- answer is 0 exactly if that allows the access.
pub fault_locked-PagedIn :
    (host : Host) (vaddr prot pte : ℕ) (k : Kernel)
    → walk k (page_of vaddr) ≡ some pte
    → k.mem pte ≢ 0
    → is_valid (k.mem pte) ≡ false
    → valid_user_range k (page_of vaddr) 1 ≡ true
    → k.current.mmap_max ≤ dram_base
    → k.io.first_free_paddr % pgsize ≡ 0
    → k.io.first_free_paddr < 2 ^ 63
    → Reads host (k.vmr (region_of k pte)) (page_of vaddr) k.io
    → Returns
        (λ r k'.
          PagedIn host (page_of vaddr) pte k k'
          × (r ≡ (if allows (k'.mem pte) prot then 0 else neg 1)))
        (fault_locked host vaddr prot k)
unfolding fault_locked
fault_locked-PagedIn host vaddr prot pte k at used unfilled valid below aligned small reads =
    let lt : page_of vaddr < dram_base =
      omega (arith, lt_of_valid k (page_of vaddr) (omega arith) valid) in
    let there = va2pa_lem k.io.first_free_paddr (page_of vaddr) lt (omega arith) aligned small in
    rw (at, fault_locked)
      (fault_at-PagedIn host (page_of vaddr) prot pte k used unfilled valid
        (page_in-PagedIn host (page_of vaddr) pte k reads there))
