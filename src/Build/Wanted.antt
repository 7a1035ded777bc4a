-- ===== src/Build/Wanted.antt =====
-- The set that the lines read by src/ipsetbuild/ipsetbuild.c ask for: the addresses that some line
-- adds and that no line removes.
use libcorkipset.Prelude.{
  ℕ, Bool, true, false, not, ◌&&◌, Option, none, some, List, [], ◌++◌, ◌∷◌, map, ltb, if◌then◌else◌,
  any,
}
use libcorkipset.Address.{CorkIp}
use libcorkipset.Set.Dispatch.{bits_of, network_has, same_ip}
use libcorkipset.Build.{Parsing, Options, Line, refused, entry, read_line}
use libcorkipset.Build.Lines.{Removal}
use libcorkipset.Load.{InFile}
use libcorkipset.Build.Program.{lines_of}

-- The prefix is longer than the address.
abbrev pub out_of_range : CorkIp → ℕ → Bool
out_of_range addr cidr = ltb (bits_of addr) cidr

-- Whether `addr'` is the address, or lies in the network, that an entry names.
abbrev pub covers : CorkIp → Option ℕ → CorkIp → Bool
covers addr none addr' = same_ip addr addr'
covers addr (some cidr) addr' = not (out_of_range addr cidr) && network_has addr cidr addr'

abbrev pub adds : CorkIp → Line → Bool
adds addr' (entry false address addr cidr) = covers addr cidr addr'
adds addr' _ = false

abbrev pub removes : CorkIp → Line → Bool
removes addr' (entry true address addr cidr) = covers addr cidr addr'
removes addr' _ = false

-- An error in the input: the program will not write a set.
abbrev pub is_faulty : Line → Bool
is_faulty (refused fault) = true
is_faulty (entry false address addr (some cidr)) = out_of_range addr cidr
is_faulty _ = false

abbrev pub takes_out : CorkIp → Removal → Bool
takes_out addr' r = covers r.address (if r.has_cidr then some r.cidr else none) addr'

-- What all the lines of some files say.
abbrev pub said : Parsing → Options → List InFile → List Line
said L options [] = []
said L options (input ∷ inputs) =
    map (read_line L options.loose_cidr) (lines_of input) ++ said L options inputs

-- The members of the set that some files ask for: a removal takes precedence over an addition.
abbrev pub asked : Parsing → Options → List InFile → CorkIp → Bool
asked L options inputs a =
    any (adds a) (said L options inputs) && not (any (removes a) (said L options inputs))
