-- ===== src/Kernel/Ipc/Tests.antt =====
-- Clients of the pipes and of the message queues right after start-up, and the theorems at them.
use oxalyn.Base.{
  ℕ, ◌≡◌, refl, false, List, [], ◌∷◌, some, none, Option, arith, update, if◌then◌else◌, ◌==◌,
}
use oxalyn.Base.Int.{pos}
use oxalyn.Kernel.Ipc.Slot.{at_slot}
use oxalyn.Kernel.Ipc.Pipe.{Pipes}
use oxalyn.Kernel.Ipc.Pipe.Spec as PipeSpec
use oxalyn.Kernel.Ipc.Pipe.Promise
use oxalyn.Kernel.Ipc.Pipe.Promise.{ClosesBoth, no_more, other, both_ends}
use oxalyn.Kernel.Ipc.Pipe.Ends.{opened}
use oxalyn.Kernel.Ipc.Pipe.Api as PipeApi
use oxalyn.Kernel.Ipc.Pipe.Api.{pipe_run, pipe_run-refines}
use oxalyn.Kernel.Ipc.Queue.{Queue}
use oxalyn.Kernel.Ipc.Queue.Spec as QueueSpec
use oxalyn.Kernel.Ipc.Queue.Api as QueueApi
use oxalyn.Kernel.Ipc.Queue.Api.{mq_run, mq_run-refines}

abbrev no_pipes : Pipes
no_pipes i = record {
  buf = λ j. 0;
  head = 0;
  tail = 0;
  used = false;
  reader_pid = 0;
  writer_pid = 0;
}

no_pipes-AllValid : PipeApi.AllValid no_pipes
no_pipes-AllValid i = (omega arith, omega arith)

-- Pipe 0 gets the descriptors 32 and 33.
abbrev talk : List PipeSpec.Call
talk =
    PipeSpec.create 1 2
    ∷ PipeSpec.write (pos 33) (7 ∷ 8 ∷ 9 ∷ [])
    ∷ PipeSpec.read (pos 32) 2
    ∷ PipeSpec.available (pos 32)
    ∷ PipeSpec.write (pos 32) (7 ∷ [])
    ∷ []

talk_heard :
    PipeSpec.pipe_run (λ i. none) talk
    ≡ PipeSpec.created (some (0, pos 32, pos 33))
      ∷ PipeSpec.wrote (some 3)
      ∷ PipeSpec.got (some (7 ∷ 8 ∷ []))
      ∷ PipeSpec.waiting 1
      ∷ PipeSpec.wrote none
      ∷ []
unfolding PipeSpec.pipe_run at_slot update PipeSpec.pipe_create PipeSpec.pipe_write
    PipeSpec.pipe_read PipeSpec.pipe_available oxalyn.Kernel.Ipc.Pipe.fd_to_pipe
    oxalyn.Kernel.Ipc.Pipe.is_write
talk_heard = refl

-- Both ends are closed, and the pipe is used again.
abbrev again : List PipeSpec.Call
again =
    PipeSpec.create 1 2
    ∷ PipeSpec.write (pos 33) (7 ∷ [])
    ∷ PipeSpec.close (pos 33)
    ∷ PipeSpec.close (pos 32)
    ∷ PipeSpec.create 3 4
    ∷ []

again-ClosesBoth : ClosesBoth again
unfolding oxalyn.Kernel.Ipc.Pipe.fd_to_pipe oxalyn.Kernel.Ipc.Pipe.is_write
again-ClosesBoth = other _ refl (other _ refl (both_ends _ _ refl refl (other _ refl no_more)))

pipe_run-refines_example :
    (pipe_run no_pipes talk ≡ PipeSpec.pipe_run (PipeApi.abs no_pipes) talk)
    × (pipe_run no_pipes again ≡ Promise.pipe_run (opened (PipeApi.abs no_pipes)) again)
pipe_run-refines_example = pipe_run-refines no_pipes talk again no_pipes-AllValid again-ClosesBoth

-- A writer sends and closes its end; the reader asks for what was sent.
abbrev parting : List PipeSpec.Call
parting =
    PipeSpec.create 1 2
    ∷ PipeSpec.write (pos 33) (7 ∷ [])
    ∷ PipeSpec.close (pos 33)
    ∷ PipeSpec.read (pos 32) 1
    ∷ []

abbrev parting_answers : Option (List ℕ) → List PipeSpec.Reply
parting_answers o =
    PipeSpec.created (some (0, pos 32, pos 33))
    ∷ PipeSpec.wrote (some 1)
    ∷ PipeSpec.closed
    ∷ PipeSpec.got o
    ∷ []

-- In ipc.c the byte is gone.
parting_lost : PipeSpec.pipe_run (λ i. none) parting ≡ parting_answers none
unfolding PipeSpec.pipe_run at_slot update PipeSpec.pipe_create PipeSpec.pipe_write
    PipeSpec.pipe_read PipeSpec.pipe_close oxalyn.Kernel.Ipc.Pipe.fd_to_pipe
    oxalyn.Kernel.Ipc.Pipe.is_write
parting_lost = refl

-- In ipc.h it still waits.
parting_kept : Promise.pipe_run (λ i. none) parting ≡ parting_answers (some (7 ∷ []))
unfolding Promise.pipe_run at_slot update Promise.pipe_create Promise.pipe_write Promise.pipe_read
    Promise.pipe_close oxalyn.Kernel.Ipc.Pipe.fd_to_pipe oxalyn.Kernel.Ipc.Pipe.is_write
parting_kept = refl

abbrev no_queues : ℕ → Queue
no_queues i = record {
  name = λ j. 0;
  msgs = λ j. record { data_bytes = λ k. 0; len = 0; sender_pid = 0 };
  head = 0;
  tail = 0;
  count = 0;
  used = false;
}

no_queues-AllValid : QueueApi.AllValid no_queues
no_queues-AllValid i = record {
  head_behind = λ e. omega arith;
  tail_in = omega arith;
  count_in = omega arith;
  empty_unless_used = λ e. refl;
}

abbrev mail : List QueueSpec.Call
mail =
    QueueSpec.create (λ i. if i == 0 then 65 else 0)
    ∷ QueueSpec.send (pos 0) 3 (1 ∷ 2 ∷ [])
    ∷ QueueSpec.send (pos 0) 4 (5 ∷ [])
    ∷ QueueSpec.recv (pos 0)
    ∷ QueueSpec.count (pos 0)
    ∷ []

mq_run-refines_example : mq_run no_queues mail ≡ QueueSpec.mq_run (QueueApi.abs no_queues) mail
mq_run-refines_example = mq_run-refines no_queues mail no_queues-AllValid
