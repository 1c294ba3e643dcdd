-- ===== src/Kernel/GuiGuard.antt =====
-- kernel/gui_guard.c: the quota of a process for drawing. Its messages are left out, and pointers
-- are never NULL here. An `int` is an integer.
pub mod Quota
use oxalyn.Base.{
  ℕ, ◌+◌, ◌-◌, ◌*◌, Bool, true, false, not, ◌&&◌, ◌||◌, Option, none, some, max, ltb, leb, ◌==◌,
  if◌then◌else◌, add32, add64,
}
use oxalyn.Base.Int.{ℤ, pos, negsuc, ltb_ℤ, sub_ℤ, abs_ℤ, pos_part}
use oxalyn.Kernel.Process.{Process}

abbrev pub fb_width : ℕ
fb_width = 800

abbrev pub fb_height : ℕ
fb_height = 600

abbrev pub max_pixels : ℕ
max_pixels = 1920000

abbrev pub max_ops : ℕ
max_ops = 4096

abbrev pub fault_limit : ℕ
fault_limit = 3

-- GpuDrawRequest; the colour is not looked at.
pub record Request : Type 0 where
  pub cmd : ℤ
  pub x : ℤ
  pub y : ℤ
  pub w : ℤ
  pub h : ℤ

pub data Outcome : Type 0 where
  admitted : ℕ → Outcome
  disabled invalid over_budget : Outcome

-- `value >= -limit && value <= limit`
unfoldable pub coord_reasonable : ℤ → ℕ → Bool
coord_reasonable value limit = leb (abs_ℤ value) limit

-- `0 <= value && value < limit`
unfoldable pub on_screen : ℤ → ℕ → Bool
on_screen value limit = not (ltb_ℤ value (pos 0)) && ltb_ℤ value (pos limit)

-- `0 < value && value <= limit`
unfoldable pub extent : ℤ → ℕ → Bool
extent value limit = ltb_ℤ (pos 0) value && not (ltb_ℤ (pos limit) value)

abbrev when : Bool → ℕ → Option ℕ
when b n = if b then some n else none

-- The number of pixels that request_valid reckons with, by command.
unfoldable pub estimate : Request → Option ℕ
unfolding coord_reasonable on_screen extent
estimate r =
    let near = coord_reasonable r.x fb_width && coord_reasonable r.y fb_height in
    let area = near && extent r.w fb_width && extent r.h fb_height in
    let line = near && coord_reasonable r.w fb_width && coord_reasonable r.h fb_height in
    let circle = near && extent r.w fb_width in
    let length = max (abs_ℤ (sub_ℤ r.w r.x)) (abs_ℤ (sub_ℤ r.h r.y)) + 1 in
    if ltb_ℤ r.cmd (pos 0)
    then none
    else if pos_part r.cmd == 0
    then some (fb_width * fb_height)
    else if pos_part r.cmd == 1
    then when (on_screen r.x fb_width && on_screen r.y fb_height) 1
    else if pos_part r.cmd == 2
    then when line length
    else if pos_part r.cmd == 3
    then when area (pos_part r.w * pos_part r.h)
    else if pos_part r.cmd == 4
    then when circle (pos_part r.w * pos_part r.w)
    else none

abbrev within : Option ℕ → Option ℕ
within none = none
within (some n) = if leb n max_pixels then some n else none

unfoldable pub request_valid : Request → Option ℕ
unfolding estimate
request_valid r = within (estimate r)

unfoldable pub gui_guard_init : Process → Process
gui_guard_init p = record p { gui_enabled = 1; gui_faults = 0; gui_ops = 0; gui_pixels = 0 }

unfoldable pub gui_guard_enabled : Process → Bool
gui_guard_enabled p = not (p.gui_enabled == 0)

unfoldable pub gui_guard_record_fault : Process → Process
gui_guard_record_fault p =
    let faults = if ltb p.gui_faults fault_limit then p.gui_faults + 1 else p.gui_faults in
    record p {
      gui_faults = faults;
      gui_enabled = if leb fault_limit faults then 0 else p.gui_enabled;
    }

unfoldable pub gui_guard_admit_pixels : Process → ℕ → Outcome × Process
unfolding gui_guard_enabled gui_guard_record_fault
gui_guard_admit_pixels p pixels =
    if not (gui_guard_enabled p)
    then (disabled, p)
    else if ltb max_pixels pixels
    then (invalid, gui_guard_record_fault p)
    else if leb max_ops p.gui_ops || ltb (max_pixels - pixels) p.gui_pixels
    then (over_budget, gui_guard_record_fault p)
    else (
      admitted pixels,
      record p { gui_ops = add32 p.gui_ops 1; gui_pixels = add64 p.gui_pixels pixels },
    )

-- gui_guard_admit reports every failure of gui_guard_admit_pixels as one of the budget.
abbrev pub as_budget : Outcome → Outcome
as_budget (admitted n) = admitted n
as_budget disabled = over_budget
as_budget invalid = over_budget
as_budget over_budget = over_budget

abbrev pub admit_request : Process → Option ℕ → Outcome × Process
unfolding gui_guard_record_fault gui_guard_admit_pixels
admit_request p none = (invalid, gui_guard_record_fault p)
admit_request p (some pixels) = let (o, p') = gui_guard_admit_pixels p pixels in (as_budget o, p')

unfoldable pub gui_guard_admit : Process → Request → Outcome × Process
unfolding gui_guard_enabled request_valid
gui_guard_admit p r =
    let rest = admit_request p (request_valid r) in
    if not (gui_guard_enabled p) then (disabled, p) else rest

unfoldable pub gui_guard_reset : Process → Process
unfolding gui_guard_init
gui_guard_reset p = gui_guard_init p
