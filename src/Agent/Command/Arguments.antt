-- ===== src/Agent/Command/Arguments.antt =====
-- cli/main.go, `parseFlags`: flags as they are written on a command line.
use jprq_bek.Base.{◌≡◌, String, Bool, true, false, List, [], ◌∷◌, if◌then◌else◌}
use jprq_bek.Agent.Command.{Flags, kind, plain, running, parse_flags}

-- All flags, in their long forms.
unfoldable pub flag_line : Flags → List String
flag_line flags =
    let rest = "--subdomain" ∷ flags.subdomain ∷ "--cname" ∷ flags.cname ∷ [] in
    if flags.debug then "--debug" ∷ rest else rest

-- Flags whose values are not spelled like flags are read back from the line that they are written to.
pub parse_flags-flag_line :
    (debug : Bool) (subdomain cname : String)
    → kind subdomain ≡ plain
    → kind cname ≡ plain
    → let flags : Flags = record { debug = debug; cname = cname; subdomain = subdomain } in
      parse_flags (flag_line flags) ≡ running flags
unfolding parse_flags flag_line
parse_flags-flag_line true subdomain cname h k = rw (h, k)
parse_flags-flag_line false subdomain cname h k = rw (h, k)
