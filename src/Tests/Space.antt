-- ===== src/Tests/Space.antt =====
-- The theorems on the allocation of space at concrete inputs.
use lbd.Prelude.{◌≡◌, refl, [], ◌∷◌, arith}
use lbd.Qcow2.State.{Device, ok}
use lbd.Qcow2.Space.{free_extent, alloc_space}
use lbd.Qcow2.FreeList.Model.{allocate}
use lbd.Qcow2.Space.Free.{HasFree, HeadOnDisk, free_extent-HasFree}
use lbd.Qcow2.Space.Alloc.{Agrees, alloc_space-allocate}
use lbd.Qcow2.Space.Safety.{Granted, alloc_space-Granted, free_then_alloc}
use lbd.Qcow2.Space.Total.{Gives, alloc_space-Gives}
use lbd.Tests.{memory_kernel, memory_disk, a_device}

a_device-no_free : HasFree memory_disk a_device []
a_device-no_free = record { spaced = tt; listed = refl }

abbrev freed_device : Device memory_kernel
freed_device = (free_extent 8192 8192 a_device).1

free_extent-HasFree_example :
    ((free_extent 8192 8192 a_device).0 ≡ ok tt)
    × HasFree memory_disk (free_extent 8192 8192 a_device).1 ((8192, 8192) ∷ [])
    × HeadOnDisk memory_disk (free_extent 8192 8192 a_device).1
    × ((free_extent 8192 8192 a_device).1.qcow2.alloc_offset ≡ a_device.qcow2.alloc_offset)
free_extent-HasFree_example =
    free_extent-HasFree memory_disk a_device 8192 8192 [] a_device-no_free
      (omega arith, omega arith, omega arith, omega arith, tt, tt)

-- The extent is in the list, and the cursor is where it was.
freed_device-one_free :
    HasFree memory_disk freed_device ((8192, 8192) ∷ []) × (freed_device.qcow2.alloc_offset ≡ 16384)
freed_device-one_free =
    let (done, has, head, cursor) =
      free_extent-HasFree memory_disk a_device 8192 8192 [] a_device-no_free
        (omega arith, omega arith, omega arith, omega arith, tt, tt) in
    (has, cursor)

alloc_space-allocate_example :
    Agrees memory_disk
      (allocate 5000 freed_device.qcow2.alloc_offset ((8192, 8192) ∷ []))
      (alloc_space 5000 freed_device)
alloc_space-allocate_example =
    alloc_space-allocate memory_disk freed_device ((8192, 8192) ∷ []) 5000 freed_device-one_free.0

alloc_space-Granted_example :
    Granted memory_disk 5000 freed_device.qcow2.alloc_offset
      ((8192, 8192) ∷ [])
      (alloc_space 5000 freed_device)
alloc_space-Granted_example =
    alloc_space-Granted memory_disk freed_device ((8192, 8192) ∷ []) 5000 freed_device-one_free.0
      (omega (arith, freed_device-one_free.1), tt) (omega (arith, freed_device-one_free.1))

free_then_alloc_example : (alloc_space 4096 (free_extent 8192 8192 a_device).1).0 ≡ ok 8192
free_then_alloc_example =
    free_then_alloc memory_disk a_device 8192 8192 [] 4096 a_device-no_free
      (omega arith, omega arith, omega arith, omega arith, tt, tt) (omega arith)

alloc_space-Gives_example : Gives 5000 a_device (alloc_space 5000 a_device)
alloc_space-Gives_example = alloc_space-Gives 5000 a_device
