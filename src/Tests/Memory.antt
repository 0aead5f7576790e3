-- ===== src/Tests/Memory.antt =====
-- What is freed, the reload of the configuration, and the copy of a file, on concrete values.
use rpiweatherd.Base.{
  ◌==◌, ℕ, ◌+◌, ◌≡◌, refl, pos, true, none, some, List, [], ◌∷◌, Bytes, length, codes, ret, fault,
  Fault, Option, ◌>>=◌, arith, ltb, if◌then◌else◌,
}
use rpiweatherd.CLib.Heap.{Live, count}
use rpiweatherd.CLib.Heap.Frees.{blocks}
use rpiweatherd.Http.Release.{HttpCmdPtrs, http_cmd_free}
use rpiweatherd.Http.Release.Frees.{cmd_ptrs, http_cmd_free_lem}
use rpiweatherd.Listener.Codes.{msgtype_stats}
use rpiweatherd.Listener.Release.{MessagePtrs, key_values, free_answer}
use rpiweatherd.Listener.Release.Frees.{message_ptrs, free_answer_lem}
use rpiweatherd.Config.Reload.{Store, put_settings, reload_config, IniEntry}
use rpiweatherd.Config.Reload.Owns.{Owns, config_ptrs, sets, reload_config-Owns}
use rpiweatherd.Config.Reload.Stale.{reload_config_stale}
use rpiweatherd.Util.Files.{Fread, Fwrite, Fclose, rpiwd_copyfile, generate_blank_config}

-- A command with one parameter. Its name is the block 2.
abbrev one_param : HttpCmdPtrs
one_param = record {
  address = 1;
  cmdname = some 2;
  length = 1;
  params = some 3;
  items = record { name = some 4; value = some 5 } ∷ [];
}

abbrev five_blocks : Live
five_blocks = 5 ∷ 4 ∷ 3 ∷ 2 ∷ 1 ∷ []

http_cmd_free_lem_example :
    (live' : Live) × (http_cmd_free one_param five_blocks ≡ ret live')
    × ((x : ℕ) → count x live' + count x (blocks (cmd_ptrs one_param)) ≡ count x five_blocks)
http_cmd_free_lem_example =
    http_cmd_free_lem one_param 3 five_blocks (record { array = refl; entries = refl })
      (λ x. ground arith)

name_leaks : http_cmd_free one_param five_blocks ≡ ret (2 ∷ [])
unfolding http_cmd_free
name_leaks = refl

-- The answer to a request for the statistics, with one pair.
abbrev statistics : MessagePtrs
statistics = record {
  mtype = msgtype_stats;
  fcountq = some 10;
  fselectq = some 11;
  payload = key_values (record {
    address = 12;
    length = 1;
    pairs = 13;
    items = record { key = some 14; value = none } ∷ [];
  });
}

abbrev answer_blocks : Live
answer_blocks = 10 ∷ 11 ∷ 12 ∷ 13 ∷ 14 ∷ []

free_answer_lem_example :
    (live' : Live) × (free_answer statistics answer_blocks ≡ ret live')
    × ((x : ℕ) → count x live' + count x (blocks (message_ptrs statistics)) ≡ count x answer_blocks)
free_answer_lem_example = free_answer_lem statistics answer_blocks (refl, refl) (λ x. ground arith)

array_leaks : free_answer statistics answer_blocks ≡ ret (13 ∷ [])
unfolding free_answer
array_leaks = refl

abbrev configured : Store
configured = record {
  config = record { measure_location = some 1; device_name = some 2; query_interval = some 3 };
  live = 1 ∷ 2 ∷ 3 ∷ [];
}

configured-Owns : Owns configured
configured-Owns = record { owned = λ x. ground arith }

-- The next address is above all live ones of the example.
abbrev next_block : Live → Option ℕ
next_block live = some (100 + length live)

abbrev all_strings : List IniEntry
all_strings =
    (codes "measure_location", codes "home")
    ∷ (codes "query_interval", codes "5m")
    ∷ (codes "device_name", codes "dht11")
    ∷ []

reload_config-Owns_example :
    (st' : Store) × (live : Live) × (reload_config next_block all_strings configured ≡ ret st')
    × ((x : ℕ)
        → count x live + count x (blocks (config_ptrs configured.config)) ≡ count x configured.live)
    × (st' ≡ put_settings next_block all_strings (record configured { live = live }))
    × Owns st'
unfolding sets
reload_config-Owns_example =
    reload_config-Owns next_block all_strings configured refl refl refl configured-Owns

abbrev port_only : List IniEntry
port_only = (codes "comm_port", codes "6005") ∷ []

reload_config_stale_example :
    (e : Fault) × ((reload_config next_block port_only configured
        >>= reload_config next_block all_strings)
      ≡ fault e)
unfolding sets
reload_config_stale_example =
    reload_config_stale next_block port_only all_strings configured 2 refl refl refl configured-Owns
      (omega arith) refl

-- A disk with room for three bytes.
abbrev full_disk : Fwrite
full_disk d n = if ltb n 3 then n else 3

abbrev skeleton : Bytes
skeleton = codes "[General]"

-- A source that delivers two bytes at a time, and a copy that loses nothing when it is closed.
abbrev by_twos : Fread
by_twos d n = if ltb n 2 then n else 2

abbrev keeps_all : Fclose
keeps_all accepted = accepted

whole_copy :
    generate_blank_config by_twos full_disk keeps_all (some skeleton) true
    ≡ some (pos 1, some skeleton)
unfolding generate_blank_config
whole_copy = refl

short_copy :
    generate_blank_config (λ d n. n) full_disk keeps_all (some skeleton) true
    ≡ some (pos 1, some (codes "[Ge"))
unfolding generate_blank_config
short_copy = refl

-- An error at the fourth byte is taken for the end of the file.
broken_off :
    rpiwd_copyfile
      (λ d n. if d == 4 then 0 else by_twos d n)
      full_disk
      keeps_all
      (some skeleton)
      true
    ≡ some (pos 1, some (codes "[Gen"))
unfolding rpiwd_copyfile
broken_off = refl
