-- ===== src/Idt/Dispatch.antt =====
-- The dispatcher of kernel/idt.c, from the registration of a handler to the acknowledgement.
use new_attempt.Base.{
  refl, inr, inl, Bool-cases, ==-ne, set, get_or, true, ltb, ◌^◌, ◌%◌, ◌-◌, ◌++◌, ◌+◌, [], ◌∷◌, leb,
  if◌then◌else◌, ◌≢◌, ◌≡◌, length, ◌<◌, ℕ, get_or-set_self, arith,
}
use new_attempt.Idt.{
  pic1_cmd, pic_eoi, pic2_cmd, Idt, irq_dispatch, irq_register_handler, irq_send_eoi, irq_base,
}
use mathlib.Core.List.{List, append_assoc}

module _ {W : Type 0} (call : ℕ → Idt × W → Idt × W) where
  -- An interrupt whose line has a registered handler calls that handler, once, and is acknowledged
  -- afterwards, at both controllers for a line of the second one.
  pub irq_dispatch-irq_register_handler :
      (s : Idt) (w : W) (irq handler : ℕ)
      → irq < 16
      → length s.irq_handlers ≡ 16
      → handler ≢ 0
      → let ready = irq_register_handler s irq handler in
        let after = call handler (ready, w) in
        let acknowledged : List (ℕ × ℕ) =
          if leb 8 irq
          then (pic2_cmd, pic_eoi) ∷ (pic1_cmd, pic_eoi) ∷ []
          else (pic1_cmd, pic_eoi) ∷ [] in
        (irq_dispatch call (irq_base + irq) (ready, w) ≡ (irq_send_eoi after.0 irq, after.1))
        × ((irq_send_eoi after.0 irq).outs ≡ after.0.outs ++ acknowledged)
  unfolding irq_dispatch irq_register_handler irq_send_eoi
  irq_dispatch-irq_register_handler s w irq handler low size some_handler =
      let line : (irq_base + irq + 2 ^ 32 - irq_base) % 2 ^ 8 ≡ irq = omega arith in
      let below : ltb irq 16 ≡ true = ground arith in
      let found : get_or (set s.irq_handlers irq handler) irq 0 ≡ handler =
        get_or-set_self s.irq_handlers irq handler 0 (omega arith) in
      rw (line, below, found, ==-ne handler 0 some_handler)
        (
          refl,
          elim (Bool-cases (leb 8 irq)) [
            | inl e ↦ rw e (append_assoc _ ((pic2_cmd, pic_eoi) ∷ []) ((pic1_cmd, pic_eoi) ∷ []))
            | inr e ↦ rw e refl
          ],
        )
