-- ===== src/Util/Files/Pid.antt =====
-- The PID file of one daemon in the hands of another.
use rpiweatherd.Base.{ℕ, ◌≡◌, refl, pos, true, none, some, Bytes}
use rpiweatherd.CLib.Decimal.{decimal}
use rpiweatherd.Util.Files.{pid_file_exists, write_pid_file, close_pid_file}

-- A daemon that can create the PID file and finds none writes its number there, which shows to the
-- next daemon, and at its end closes its descriptor and removes the file. A daemon that finds one
-- when it writes it, since another daemon was faster than its check, leaves it as it is, but at its
-- end closes descriptor 0 and removes the file of the other.
pub close_pid_file-write_pid_file :
    (descriptor pid : ℕ) (other : Bytes)
    → (write_pid_file (some descriptor) pid none ≡ (pos descriptor, some (decimal pid)))
      × (pid_file_exists (write_pid_file (some descriptor) pid none).1 ≡ true)
      × (close_pid_file
            (write_pid_file (some descriptor) pid none).0
            (write_pid_file (some descriptor) pid none).1
          ≡ (some (pos descriptor), none))
      × ((write_pid_file (some descriptor) pid (some other)).1 ≡ some other)
      × (close_pid_file
            (write_pid_file (some descriptor) pid (some other)).0
            (write_pid_file (some descriptor) pid (some other)).1
          ≡ (some (pos 0), none))
unfolding pid_file_exists write_pid_file close_pid_file
close_pid_file-write_pid_file descriptor pid other = (refl, refl, refl, refl, refl)
