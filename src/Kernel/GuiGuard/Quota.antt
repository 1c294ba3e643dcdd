-- ===== src/Kernel/GuiGuard/Quota.antt =====
-- The quota over a run of drawing requests.
use oxalyn.Base.{
  ℕ, ◌+◌, ◌-◌, ◌≤◌, ◌<◌, ◌≡◌, refl, true, ◌||◌, List, [], ◌∷◌, Option, none, some, ltb, leb, ◌==◌,
  inl, inr, Bool-cases, arith,
}
use oxalyn.Kernel.Process.{Process}
use oxalyn.Kernel.GuiGuard.{
  Request, Outcome, admitted, disabled, invalid, over_budget, max_pixels, max_ops, fault_limit,
  request_valid, gui_guard_enabled, gui_guard_record_fault, gui_guard_admit_pixels, gui_guard_admit,
  admit_request, as_budget,
}

-- A drawing request, or a framebuffer write of so many pixels.
pub data Draw : Type 0 where
  request : Request → Draw
  pixels : ℕ → Draw

unfoldable pub draw : Process → Draw → Outcome × Process
draw p (request r) = gui_guard_admit p r
draw p (pixels n) = gui_guard_admit_pixels p n

abbrev pub cost : Outcome → ℕ
cost (admitted n) = n
cost disabled = 0
cost invalid = 0
cost over_budget = 0

abbrev pub granted : Outcome → ℕ
granted (admitted n) = 1
granted disabled = 0
granted invalid = 0
granted over_budget = 0

-- The pixels and the requests that a process is granted over a run of requests.
unfoldable pub spent : Process → List Draw → ℕ × ℕ
unfolding draw
spent p [] = (0, 0)
spent p (d ∷ ds) =
    let (o, p') = draw p d in let (px, ops) = spent p' ds in (cost o + px, granted o + ops)

-- The counters are within the quota, and a process with three faults may draw no more.
pub record IsWithin (p : Process) : Type 0 where
  pub pixels_in : p.gui_pixels ≤ max_pixels
  pub ops_in : p.gui_ops ≤ max_ops
  pub faults_in : p.gui_faults ≤ fault_limit
  pub quarantined : p.gui_faults ≡ fault_limit → p.gui_enabled ≡ 0

-- What one step spends is what the counters grow by.
record Step (p p' : Process) (o : Outcome) : Type 0 where
  within : IsWithin p'
  px : p'.gui_pixels ≡ p.gui_pixels + cost o
  ops : p'.gui_ops ≡ p.gui_ops + granted o

fault-Step :
    (p : Process) (o : Outcome)
    → IsWithin p
    → cost o ≡ 0
    → granted o ≡ 0
    → Step p (gui_guard_record_fault p) o
unfolding gui_guard_record_fault
fault-Step p o v c g = record {
  within = record {
    pixels_in = v.pixels_in;
    ops_in = v.ops_in;
    faults_in = ground (arith, v.faults_in);
    quarantined = λ e. ground (arith, v.faults_in, v.quarantined);
  };
  px = omega arith;
  ops = omega arith;
}

admit_pixels-Step :
    (p : Process) (n : ℕ) → IsWithin p → let (o, p') = gui_guard_admit_pixels p n in Step p p' o
unfolding gui_guard_admit_pixels
admit_pixels-Step p n v = elim (Bool-cases (p.gui_enabled == 0)) [
  | inl off ↦ rw off (record { within = v; px = omega arith; ops = omega arith })
  | inr on ↦ elim (Bool-cases (ltb max_pixels n)) [
    | inl huge ↦ rw (on, huge) (fault-Step p invalid v refl refl)
    | inr fits ↦ elim (Bool-cases (leb max_ops p.gui_ops || ltb (max_pixels - n) p.gui_pixels)) [
      | inl over ↦ rw (on, fits, over) (fault-Step p over_budget v refl refl)
      | inr room ↦
          let ops : p.gui_ops < max_ops = ground arith in
          let px : p.gui_pixels + n ≤ max_pixels = ground arith in
          rw (on, fits, room)
            (record {
              within = record {
                pixels_in = omega arith;
                ops_in = omega arith;
                faults_in = v.faults_in;
                quarantined = v.quarantined;
              };
              px = omega arith;
              ops = omega arith;
            })
    ]
  ]
]

as_budget-Step : (p p' : Process) (o : Outcome) → Step p p' o → Step p p' (as_budget o)
as_budget-Step p p' (admitted n) s = s
as_budget-Step p p' disabled s = record { within = s.within; px = s.px; ops = s.ops }
as_budget-Step p p' invalid s = record { within = s.within; px = s.px; ops = s.ops }
as_budget-Step p p' over_budget s = s

admit_request-Step :
    (p : Process) (o : Option ℕ) → IsWithin p → let (r, p') = admit_request p o in Step p p' r
unfolding admit_request
admit_request-Step p none v = fault-Step p invalid v refl refl
admit_request-Step p (some n) v = as_budget-Step p _ _ (admit_pixels-Step p n v)

draw-Step : (p : Process) (d : Draw) → IsWithin p → let (o, p') = draw p d in Step p p' o
unfolding draw gui_guard_admit
draw-Step p (pixels n) v = admit_pixels-Step p n v
draw-Step p (request r) v = elim (Bool-cases (gui_guard_enabled p)) [
  | inl on ↦ rw on (admit_request-Step p (request_valid r) v)
  | inr off ↦ rw off (record { within = v; px = omega arith; ops = omega arith })
]

-- However a process mixes drawing requests and framebuffer writes, and whatever they are, the
-- pixels it is granted never exceed what is left of GUI_MAX_PIXELS, nor the requests what is left of
-- GUI_MAX_OPS. The counters start within the quota.
pub spent-le :
    (p : Process) (ds : List Draw)
    → IsWithin p
    → let (px, ops) = spent p ds in (p.gui_pixels + px ≤ max_pixels) × (p.gui_ops + ops ≤ max_ops)
unfolding spent
spent-le p [] v = (omega (arith, v.pixels_in), omega (arith, v.ops_in))
spent-le p (d ∷ ds) v =
    let s = draw-Step p d v in
    let (px, ops) = spent-le (draw p d).1 ds s.within in
    (omega (arith, px, s.px), omega (arith, ops, s.ops))

-- Once a process is in quarantine it is granted nothing, however many requests it makes.
spent-quarantined : (p : Process) (ds : List Draw) → p.gui_enabled ≡ 0 → spent p ds ≡ (0, 0)
unfolding spent draw gui_guard_admit gui_guard_admit_pixels gui_guard_enabled
spent-quarantined p [] h = refl
spent-quarantined p (request r ∷ ds) h =
    let off : (p.gui_enabled == 0) ≡ true = ground arith in rw (off, spent-quarantined p ds h) refl
spent-quarantined p (pixels n ∷ ds) h =
    let off : (p.gui_enabled == 0) ≡ true = ground arith in rw (off, spent-quarantined p ds h) refl
