-- ===== src/Tests/Loops.antt =====
-- The loops over a request at a concrete input.
use lbd.Prelude.{ℕ, ◌≡◌, refl, [], ◌∷◌, arith}
use lbd.Qcow2.State.{M, ok}
use lbd.Qcow2.Read.{MissAction, continue, read_segment}
use lbd.Qcow2.Read.Loop.{read_segment_enough}
use lbd.Qcow2.Store.{write_loop, discard_loop}
use lbd.Qcow2.Store.Loop.{request_loops_enough}
use lbd.Tests.{memory_kernel, a_device}

abbrev go_on : ℕ → M memory_kernel MissAction
go_on cluster d = (ok continue, d)

read_segment_enough_example :
    read_segment go_on 9 4090 8 a_device ≡ read_segment go_on 8 4090 8 a_device
read_segment_enough_example =
    read_segment_enough go_on (λ c d. refl) 9 4090 8 a_device (omega arith) (omega arith)

request_loops_enough_example :
    (write_loop 9 4095 (1 ∷ 2 ∷ []) a_device ≡ write_loop 2 4095 (1 ∷ 2 ∷ []) a_device)
    × (discard_loop 9 4095 8 a_device ≡ discard_loop 8 4095 8 a_device)
request_loops_enough_example =
    request_loops_enough 9 4095 8 (1 ∷ 2 ∷ []) a_device (omega arith) (omega arith) (omega arith)
