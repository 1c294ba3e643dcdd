-- ===== src/Kernel/Ipc/Pipe/Ends.antt =====
-- Where ipc.c does what ipc.h promises of the ends of a pipe: as long as both are closed together.
use mathlib.Core.Path.{fun_ext}
use oxalyn.Base.{
  ℕ, zero, suc, ◌+◌, ◌*◌, ◌≡◌, refl, sym, ap, ◌∙◌, subst, Bool, true, false, not, List, [], ◌∷◌,
  Option, none, some, if◌then◌else◌, update, update_self, inl, inr, Bool-cases, ◌==◌,
}
use oxalyn.Base.Int.{ℤ, pos}
use oxalyn.Kernel.Ipc.Slot.{at_slot, at_slot-rel}
use oxalyn.Kernel.Ipc.Pipe.{fd_to_pipe, is_write, base_fd, max_pipes}
use oxalyn.Kernel.Ipc.Pipe.Spec
use oxalyn.Kernel.Ipc.Pipe.Spec.{
  Queues, Call, create, write, read, close, available, Reply, created, wrote, got, closed, waiting,
}
use oxalyn.Kernel.Ipc.Pipe.Promise
use oxalyn.Kernel.Ipc.Pipe.Promise.{
  Channel, Channels, both_open, close_end, is_close, ClosesBoth, no_more, other, both_ends,
}

abbrev open_both : Option (List ℕ) → Option Channel
open_both none = none
open_both (some q) = some (both_open q)

-- The pipes with both ends of each open.
abbrev pub opened : Queues → Channels
opened a i = open_both (a i)

opened-update :
    (a : Queues) (i : ℕ) (q : Option (List ℕ))
    → opened (update a i q) ≡ update (opened a) i (open_both q)
unfolding update
opened-update a i q =
    fun_ext (λ j. elim (Bool-cases (j == i)) [ inl e ↦ rw e refl | inr e ↦ rw e refl ])

update-update {ℓ} :
    {A : Type ℓ} (f : ℕ → A) (i : ℕ) (v w : A) → update (update f i v) i w ≡ update f i w
unfolding update
update-update f i v w =
    fun_ext (λ j. elim (Bool-cases (j == i)) [ inl e ↦ rw e refl | inr e ↦ rw e refl ])

first_none-opened :
    (a : Queues) (left i : ℕ) → Promise.first_none (opened a) left i ≡ Spec.first_none a left i
first_none-opened a zero i = refl
first_none-opened a (suc left) i = at_first (a i) (first_none-opened a left (i + 1))
  where
    at_first :
        (o : Option (List ℕ)) {x y : Option ℕ}
        → x ≡ y
        → (if Promise.is_some (open_both o) then x else some i)
          ≡ (if Spec.is_some o then y else some i)
    at_first none e = refl
    at_first (some q) e = e

-- The same answer, with both ends open afterwards.
abbrev Same {ℓ} : {A : Type ℓ} → A × Channels → A × Queues → Type ℓ
Same (x, b) (y, a) = (x ≡ y) × (b ≡ opened a)

create-Same : (a : Queues) → Same (Promise.pipe_create (opened a)) (Spec.pipe_create a)
unfolding Promise.pipe_create Spec.pipe_create
create-Same a =
    subst
      (λ o. Same (Promise.pipe_create (opened a)) (
        at_slot o (none, a)
          (λ i.
            (some (i, pos (base_fd + i * 2), pos (base_fd + i * 2 + 1)), update a i (some [])))))
      (first_none-opened a max_pipes 0)
      (at_slot-rel Same (Promise.first_none (opened a) max_pipes 0) (refl, refl)
        (λ i. (refl, sym (opened-update a i (some [])))))

write-Same :
    (a : Queues) (fd : ℤ) (bs : List ℕ)
    → Same (Promise.pipe_write (opened a) fd bs) (Spec.pipe_write a fd bs)
unfolding Promise.pipe_write Spec.pipe_write
write-Same a fd bs =
    at_slot-rel Same (fd_to_pipe fd) (refl, refl) (λ i. at_end i (a i) (is_write fd))
  where
    at_end :
        (i : ℕ) (o : Option (List ℕ)) (b : Bool)
        → Same (Promise.write_to (opened a) i (open_both o) b bs) (Spec.write_to a i o b bs)
    at_end i none b = (refl, refl)
    at_end i (some q) false = (refl, refl)
    at_end i (some q) true = (refl, sym (opened-update a i _))

read-Same :
    (a : Queues) (fd : ℤ) (n : ℕ) → Same (Promise.pipe_read (opened a) fd n) (Spec.pipe_read a fd n)
unfolding Promise.pipe_read Spec.pipe_read
read-Same a fd n = at_slot-rel Same (fd_to_pipe fd) (refl, refl) (λ i. at_end i (a i) (is_write fd))
  where
    at_end :
        (i : ℕ) (o : Option (List ℕ)) (b : Bool)
        → Same (Promise.read_from (opened a) i (open_both o) b n) (Spec.read_from a i o b n)
    at_end i none b = (refl, refl)
    at_end i (some q) true = (refl, refl)
    at_end i (some q) false = (refl, sym (opened-update a i _))

available-same :
    (a : Queues) (fd : ℤ) → Promise.pipe_available (opened a) fd ≡ Spec.pipe_available a fd
unfolding Promise.pipe_available Spec.pipe_available
available-same a fd = at_slot-rel (λ n m. n ≡ m) (fd_to_pipe fd) refl (λ i. count (a i))
  where
    count : (o : Option (List ℕ)) → Promise.waiting_in (open_both o) ≡ Spec.waiting_in o
    count none = refl
    count (some q) = refl

serve-Same :
    (a : Queues) (c : Call)
    → is_close c ≡ false
    → Same (Promise.serve (opened a) c) (Spec.serve a c)
unfolding Promise.serve Spec.serve
serve-Same a (create r w) h = let (e, k) = create-Same a in (ap created e, k)
serve-Same a (write fd bs) h = let (e, k) = write-Same a fd bs in (ap wrote e, k)
serve-Same a (read fd n) h = let (e, k) = read-Same a fd n in (ap got e, k)
serve-Same a (close fd) h = absurd (cc)
serve-Same a (available fd) h = (ap waiting (available-same a fd), refl)

close_end_twice :
    (o : Option (List ℕ)) (b b' : Bool)
    → b ≡ not b'
    → close_end b' (close_end b (open_both o)) ≡ none
close_end_twice none b b' e = refl
close_end_twice (some q) true false e = refl
close_end_twice (some q) false true e = refl
close_end_twice (some q) true true e = absurd (cc)
close_end_twice (some q) false false e = absurd (cc)

close_in :
    (a : Queues) (o : Option ℕ) (b b' : Bool)
    → b ≡ not b'
    → let once = at_slot o (opened a) (λ i. update (opened a) i (close_end b (opened a i))) in
      let spec_once = at_slot o a (λ i. update a i none) in
      at_slot o once (λ i. update once i (close_end b' (once i)))
      ≡ opened (at_slot o spec_once (λ i. update spec_once i none))
unfolding at_slot
close_in a none b b' h = refl
close_in a (some i) b b' h =
    let x = close_end b (opened a i) in
    let once = update (opened a) i x in
    ap (λ o. update once i (close_end b' o)) (update_self (opened a) i x)
    ∙ ap (update once i) (close_end_twice (a i) b b' h)
    ∙ update-update (opened a) i x none
    ∙ sym (opened-update a i none)
    ∙ ap opened (sym (update-update a i none none))

close_both :
    (a : Queues) (fd fd' : ℤ)
    → fd_to_pipe fd ≡ fd_to_pipe fd'
    → is_write fd ≡ not (is_write fd')
    → Promise.pipe_close (Promise.pipe_close (opened a) fd) fd'
      ≡ opened (Spec.pipe_close (Spec.pipe_close a fd) fd')
unfolding Promise.pipe_close Spec.pipe_close
close_both a fd fd' same h =
    subst
      (λ o.
        let once =
          at_slot (fd_to_pipe fd) (opened a)
            (λ i. update (opened a) i (close_end (is_write fd) (opened a i))) in
        let spec_once = at_slot (fd_to_pipe fd) a (λ i. update a i none) in
        at_slot o once (λ i. update once i (close_end (is_write fd') (once i)))
        ≡ opened (at_slot o spec_once (λ i. update spec_once i none)))
      same (close_in a (fd_to_pipe fd) (is_write fd) (is_write fd') h)

-- Clients that close both ends of a pipe together see of the queues what ipc.h promises.
pub pipe_run-opened :
    (a : Queues) (cs : List Call)
    → ClosesBoth cs
    → Promise.pipe_run (opened a) cs ≡ Spec.pipe_run a cs
unfolding Promise.pipe_run Spec.pipe_run Promise.serve Spec.serve
pipe_run-opened a _ no_more = refl
pipe_run-opened a _ (other {cs} c h more) =
    let (e, k) = serve-Same a c h in
    let (r, a') = Spec.serve a c in
    ap (λ x. x ∷ Promise.pipe_run (Promise.serve (opened a) c).1 cs) e
    ∙ ap (λ b. r ∷ Promise.pipe_run b cs) k
    ∙ ap (λ l. r ∷ l) (pipe_run-opened a' cs more)
pipe_run-opened a _ (both_ends {cs} fd fd' same h more) =
    ap (λ b. closed ∷ closed ∷ Promise.pipe_run b cs) (close_both a fd fd' same h)
    ∙ ap (λ l. closed ∷ closed ∷ l)
        (pipe_run-opened (Spec.pipe_close (Spec.pipe_close a fd) fd') cs more)
