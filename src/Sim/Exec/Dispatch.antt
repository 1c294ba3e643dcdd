-- ===== src/Sim/Exec/Dispatch.antt =====
-- From the handlers of the table to the instruction that is executed.
use oxalyn.Base.{ℕ, List, [], ◌∷◌, ◌==◌, inl, inr, Bool-cases}
use oxalyn.Sim.Exec.Table.{Handler, handler_of, exec_unknown}

abbrev pub AllHandlers : (Handler → Type 0) → List (ℕ × Handler) → Type 0
AllHandlers P [] = P exec_unknown
AllHandlers P ((k, h) ∷ hs) = P h × AllHandlers P hs

pub handler_of-AllHandlers :
    (P : Handler → Type 0) (hs : List (ℕ × Handler)) (op : ℕ)
    → AllHandlers P hs
    → P (handler_of hs op)
unfolding handler_of
handler_of-AllHandlers P [] op a = a
handler_of-AllHandlers P ((k, h) ∷ hs) op a = elim (Bool-cases (op == k)) [
  | inl e ↦ rw e a.0
  | inr e ↦ rw e (handler_of-AllHandlers P hs op a.1)
]
