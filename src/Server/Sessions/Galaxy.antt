-- ===== src/Server/Sessions/Galaxy.antt =====
-- The galaxy chunks: `SendGalaxyChunks` of GameLogic/ServerSessions.h. The manifest is the list of its
-- entries as they go on the wire.
use deepspace_outpost_dx.Base.{
  ltb, leb, ◌==◌, if◌then◌else◌, length, drop, take, ℕ, zero, suc, ◌+◌, ◌-◌, ◌%◌, ◌^◌, ◌≤◌, min,
  ◌≡◌, List, [], ◌∷◌, ◌++◌,
}
use deepspace_outpost_dx.Messages.{Value}
use deepspace_outpost_dx.Messages.Defs.World.{galaxy_system_entry, galaxy_chunk}
use deepspace_outpost_dx.Server.Sessions.{Session}
use deepspace_outpost_dx.Server.Sessions.Hello.{tell}

abbrev pub galaxy_chunk_max_systems : ℕ
galaxy_chunk_max_systems = 16

abbrev pub galaxy_chunk_max_request : ℕ
galaxy_chunk_max_request = 64

abbrev pub Entry : Type 0
Entry = Value galaxy_system_entry

abbrev pub Chunk : Type 0
Chunk = Value galaxy_chunk.fields

-- The loop over the chunks from a base on; each takes up to sixteen entries, so there are at most as
-- many rounds as entries that are left. The base is of 32 bits and wraps.
unfoldable pub chunks_from : ℕ → ℕ → ℕ → ℕ → List Entry → List Chunk
chunks_from zero total base end manifest = []
chunks_from (suc fuel) total base end manifest =
    let n = min galaxy_chunk_max_systems (end - base) in
    let later_base = (base + galaxy_chunk_max_systems) % 2 ^ 32 in
    let rest = chunks_from fuel total later_base end manifest in
    if ltb base end then (total, (base, (take n (drop base manifest), tt))) ∷ rest else []

unfoldable pub galaxy_chunks : ℕ → ℕ → List Entry → List Chunk
galaxy_chunks base count manifest =
    let total = length manifest % 2 ^ 32 in
    let wanted =
      if count == 0 then galaxy_chunk_max_request else min count galaxy_chunk_max_request in
    let end = min ((base + wanted) % 2 ^ 32) total in
    if leb total base
    then (total, (base, ([], tt))) ∷ []
    else chunks_from (end - base) total base end manifest

unfoldable pub tell_chunks : List Chunk → Session → Session
tell_chunks [] s = s
tell_chunks (c ∷ cs) s = tell_chunks cs (tell galaxy_chunk c s)

unfoldable pub send_galaxy_chunks : ℕ → ℕ → List Entry → Session → Session
send_galaxy_chunks base count manifest s = tell_chunks (galaxy_chunks base count manifest) s

-- The entries of chunks, one chunk after the other.
abbrev pub systems_of : List Chunk → List Entry
systems_of [] = []
systems_of (c ∷ cs) = c.1.1.0 ++ systems_of cs

-- Each chunk holds at most sixteen entries.
abbrev pub IsSmall : Chunk → Type 0
IsSmall c = length c.1.1.0 ≤ galaxy_chunk_max_systems

-- Each chunk carries the size of the manifest and the base of its first entry, sixteen behind the last.
abbrev pub IsLaid : ℕ → ℕ → List Chunk → Type 0
IsLaid total base [] = Unit
IsLaid total base (c ∷ cs) =
    (c.0 ≡ total) × (c.1.0 ≡ base) × IsLaid total (base + galaxy_chunk_max_systems) cs

-- How many entries a request is answered with.
abbrev pub answered : ℕ → ℕ
answered count = if count == 0 then galaxy_chunk_max_request else min count galaxy_chunk_max_request
