-- ===== src/Util/Files.antt =====
-- src/util.c: rpiwd_copyfile, rpiwd_file_exists, write_pid_file and pid_file_exists;
-- src/confighandler.c: generate_blank_config; src/rpiweatherd.c: what quit_routine does to the PID
-- file. A file is its bytes, or missing.
pub mod Copies
pub mod Pid
use rpiweatherd.Base.{
  ℕ, zero, suc, ◌+◌, ℤ, pos, neg, Bool, true, false, not, Option, none, some, [], ◌++◌, ◌==◌, eq_ℤ,
  if◌then◌else◌, Bytes, length, take, drop,
}
use rpiweatherd.CLib.Decimal.{decimal}

abbrev pub rpiwd_copyfile_buffsize : ℕ
rpiwd_copyfile_buffsize = 2048

-- How many bytes fread delivers of those that are left and asked for, by the offset in the file and
-- their number: none at an error.
abbrev pub Fread : Type 0
Fread = ℕ → ℕ → ℕ

-- How many bytes fwrite accepts, by the bytes that it accepted before and those that it is given.
abbrev pub Fwrite : Type 0
Fwrite = ℕ → ℕ → ℕ

-- What is in a file behind fflush and fclose, by the bytes that fwrite accepted. Where one of them
-- fails, bytes are missing; their results are not looked at.
abbrev pub Fclose : Type 0
Fclose = Bytes → Bytes

-- The loop over buffers of `size` bytes: the status, and the bytes that fwrite accepted.
unfoldable pub copy_loop : Fread → Fwrite → ℕ → ℕ → Bytes → Bytes → Option (ℤ × Bytes)
copy_loop fread fwrite size zero content accepted = none
copy_loop fread fwrite size (suc fuel) content accepted =
    let read_bytes = fread (length accepted) (length (take size content)) in
    let buffer = take read_bytes (take size content) in
    let written_bytes = fwrite (length accepted) (length buffer) in
    let later =
      copy_loop fread fwrite size fuel (drop (length buffer) content) (accepted ++ buffer) in
    if length buffer == 0
    then some (pos 1, accepted)
    else if not (written_bytes == length buffer)
    then some (neg 1, accepted ++ take written_bytes buffer)
    else later

-- The status, and the destination if it was opened. `src` is the source if it can be opened, and
-- `opens` says whether the destination can be.
unfoldable pub rpiwd_copyfile :
    Fread → Fwrite → Fclose → Option Bytes → Bool → Option (ℤ × Option Bytes)
unfolding copy_loop
rpiwd_copyfile fread fwrite fclose none opens = some (pos 0, none)
rpiwd_copyfile fread fwrite fclose (some content) opens =
    if not opens
    then some (pos 0, none)
    else elim (copy_loop fread fwrite rpiwd_copyfile_buffsize (length content + 1) content []) [
      | none ↦ none
      | some (status, accepted) ↦ some (status, some (fclose accepted))
    ]

unfoldable pub generate_blank_config :
    Fread → Fwrite → Fclose → Option Bytes → Bool → Option (ℤ × Option Bytes)
unfolding rpiwd_copyfile
generate_blank_config fread fwrite fclose src opens =
    elim (rpiwd_copyfile fread fwrite fclose src opens) [
      | none ↦ none
      | some (status, dest) ↦ some ((if eq_ℤ status (pos 0) then neg 1 else pos 1), dest)
    ]

unfoldable pub rpiwd_file_exists : Option Bytes → Bool
rpiwd_file_exists none = false
rpiwd_file_exists (some content) = true

unfoldable pub pid_file_exists : Option Bytes → Bool
pid_file_exists none = false
pid_file_exists (some content) = true

-- The descriptor that is returned, and the PID file. `descriptor` is that of a file that can be
-- created; the file is only opened if it is not there.
unfoldable pub write_pid_file : Option ℕ → ℕ → Option Bytes → ℤ × Option Bytes
unfolding decimal
write_pid_file none pid file = (pos 0, file)
write_pid_file (some descriptor) pid none = (pos descriptor, some (decimal pid))
write_pid_file (some descriptor) pid (some content) = (pos 0, some content)

-- The end of quit_routine: the descriptor that is closed, if any, and the PID file.
unfoldable pub close_pid_file : ℤ → Option Bytes → Option ℤ × Option Bytes
close_pid_file pid_fd file = if not (eq_ℤ pid_fd (neg 1)) then (some pid_fd, none) else (none, file)
