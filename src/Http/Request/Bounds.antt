-- ===== src/Http/Request/Bounds.antt =====
-- The buffers that break_request writes to.
use rpiweatherd.Base.{◌≡◌, ◌≤◌, Bytes, length, fault, write_overflow, le→ltb}
use rpiweatherd.CLib.Text.{strcpy}
use rpiweatherd.Http.Request.{break_request}

-- A line of 1024 bytes or more overflows the local copy.
pub break_request_overflow :
    (line : Bytes) → 1024 ≤ length line → break_request line ≡ fault write_overflow
unfolding break_request strcpy
break_request_overflow line h = rw (le→ltb (length line) 1024 h)
