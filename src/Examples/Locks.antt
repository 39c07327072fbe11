-- ===== src/Examples/Locks.antt =====
-- The theorems on fcntl (src/filesystem/RealFD_Fnctl.cc) at concrete inputs.
use lbw.Prelude.{◌≡◌, ◌<◌, ◌≤◌, ◌^◌, ◌||◌, leb, if◌then◌else◌}
use lbw.Prelude.Results.{einval, enolck, ok, throw}
use lbw.Fcntl.{LinuxFlock, Flock, convert_flock, convert_flock64}
use lbw.Fcntl.Locks.{SameLock, convert_flock64_lem}

-- A lock for writing that starts at four gigabytes.
abbrev huge_lock : LinuxFlock
huge_lock = record { l_type = 1; l_whence = 0; l_start = 0x1_0000_0000; l_len = 10; l_pid = 0 }

convert_flock64_example :
    (huge_lock.l_type < 3
      → (f : Flock) × SameLock huge_lock f
        × (convert_flock huge_lock ≡ ok f)
        × (convert_flock64 huge_lock ≡ (
            if leb (2 ^ 32) huge_lock.l_start || leb (2 ^ 32) huge_lock.l_len
            then throw enolck
            else ok f)))
    × (3 ≤ huge_lock.l_type
        → (convert_flock huge_lock ≡ throw einval) × (convert_flock64 huge_lock ≡ throw einval))
convert_flock64_example = convert_flock64_lem huge_lock
