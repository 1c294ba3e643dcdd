-- ===== src/Sim/Exec/Isolation.antt =====
-- The isolation of user mode, for every instruction word.
use oxalyn.Base.{ℕ, ◌≡◌, refl, ap, inl, inr, Option, none, some}
use mathlib.Core.Option
use oxalyn.Sim.Priv
use oxalyn.Sim.Cause
use oxalyn.Sim.State.{Cpu, write_reg}
use oxalyn.Sim.Exec.Insn.{decode}
use oxalyn.Sim.Exec.Alu.{exec_div, exec_rem, exec_divu, exec_remu}
use oxalyn.Sim.Exec.Memory.{exec_eload, exec_estore}
use oxalyn.Sim.Exec.Branch.{exec_jmp, exec_call, exec_ret, exec_jalr, jump}
use oxalyn.Sim.Exec.System.{exec_nop, exec_halt, exec_rflags, exec_rand, exec_aese, exec_hash}
use oxalyn.Sim.Exec.Table.{handlers, handler_of, exec_unknown, execute, clear_r0}
use oxalyn.Sim.Exec.Dispatch.{AllHandlers, handler_of-AllHandlers}
use oxalyn.Sim.Exec.Confine.{
  Confines, Confined, user_traps, exec_add-Confines, exec_alu-Confines, exec_csrr-Confines,
  exec_csrw-Confines, exec_ecall-Confines, exec_eret-Confines, exec_imm-Confines, exec_in-Confines,
  exec_jnz-Confines, exec_jz-Confines, exec_load-Confines, exec_loadb-Confines, exec_mul-Confines,
  exec_out-Confines, exec_store-Confines, exec_storeb-Confines, exec_sub-Confines,
  exec_wfi-Confines, guarded-Confines, machine_mode-Confines, signed_quotient-Confines,
  signed_remainder-Confines,
}

handlers-Confines : AllHandlers Confines handlers
unfolding handlers jump exec_nop exec_halt exec_eload exec_estore exec_rflags exec_jmp exec_call
    exec_ret exec_jalr exec_unknown write_reg exec_div exec_rem exec_divu exec_remu exec_rand
    exec_aese exec_hash
handlers-Confines = (
  λ i c u. inl refl,
  (
    λ i c u. inl refl,
    (
      exec_add-Confines,
      (
        exec_sub-Confines,
        (
          exec_alu-Confines _,
          (
            exec_alu-Confines _,
            (
              exec_alu-Confines _,
              (
                exec_imm-Confines _,
                (
                  exec_imm-Confines _,
                  (
                    exec_mul-Confines,
                    (
                      guarded-Confines _ signed_quotient-Confines,
                      (
                        guarded-Confines _ (exec_alu-Confines _),
                        (
                          guarded-Confines _ signed_remainder-Confines,
                          (
                            guarded-Confines _ (exec_alu-Confines _),
                            (
                              exec_load-Confines,
                              (
                                exec_store-Confines,
                                (
                                  exec_loadb-Confines,
                                  (
                                    exec_storeb-Confines,
                                    (
                                      λ i c u. inl refl,
                                      (
                                        λ i c u. inl refl,
                                        (
                                          λ i c u. inl refl,
                                          (
                                            exec_imm-Confines _,
                                            (
                                              λ i c u. inl refl,
                                              (
                                                exec_jz-Confines,
                                                (
                                                  exec_jnz-Confines,
                                                  (
                                                    λ i c u. inl refl,
                                                    (
                                                      λ i c u. inl refl,
                                                      (
                                                        exec_out-Confines,
                                                        (
                                                          exec_in-Confines,
                                                          (
                                                            exec_ecall-Confines,
                                                            (
                                                            exec_eret-Confines,
                                                            (
                                                            exec_csrw-Confines,
                                                            (
                                                            exec_csrr-Confines,
                                                            (
                                                            machine_mode-Confines _,
                                                            (
                                                            λ i c u. inl refl,
                                                            (
                                                            exec_wfi-Confines,
                                                            (
                                                            machine_mode-Confines _,
                                                            (
                                                            machine_mode-Confines _,
                                                            (
                                                            exec_imm-Confines _,
                                                            (
                                                            λ i c u. inl refl,
                                                            (
                                                            exec_alu-Confines _,
                                                            (
                                                            exec_alu-Confines _,
                                                            (
                                                            exec_alu-Confines _,
                                                            (
                                                            exec_alu-Confines _,
                                                            (
                                                            exec_alu-Confines _,
                                                            (
                                                            exec_alu-Confines _,
                                                            (
                                                            exec_imm-Confines _,
                                                            (
                                                            exec_imm-Confines _,
                                                            (
                                                            exec_imm-Confines _,
                                                            λ i c u.
                                                            inr (user_traps c Cause.ill_insn),
                                                            ),
                                                            ),
                                                            ),
                                                            ),
                                                            ),
                                                            ),
                                                            ),
                                                            ),
                                                            ),
                                                            ),
                                                            ),
                                                            ),
                                                            ),
                                                            ),
                                                            ),
                                                            ),
                                                            ),
                                                            ),
                                                            ),
                                                          ),
                                                        ),
                                                      ),
                                                    ),
                                                  ),
                                                ),
                                              ),
                                            ),
                                          ),
                                        ),
                                      ),
                                    ),
                                  ),
                                ),
                              ),
                            ),
                          ),
                        ),
                      ),
                    ),
                  ),
                ),
              ),
            ),
          ),
        ),
      ),
    ),
  ),
)

-- A program in user mode, whatever word it executes, either leaves its privilege, the control
-- registers, the I/O ports, the random generator, the UART, the GPIO pins and the wait state as
-- they were, or traps (general registers aside). A word of undefined behaviour is excepted.
pub execute-Confined : (insn : ℕ) (c : Cpu) → c.priv ≡ Priv.user → Confined c (execute insn c)
unfolding execute
execute-Confined insn c u =
    let i = decode insn in
    settle (handler_of handlers i.opcode i c)
      (handler_of-AllHandlers Confines handlers i.opcode handlers-Confines i c u)
  where
    settle : (o : Option Cpu) → Confined c o → Confined c (Option.map clear_r0 o)
    settle none d = tt
    settle (some c') (inl e) = inl e
    settle (some c') (inr (cause, regs, e)) = inr (cause, _, ap clear_r0 e)
