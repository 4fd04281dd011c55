-- ===== src/Args.antt =====
-- libvncserver/cargs.c: the options of the command line.
pub mod Examples
pub mod Laws
pub mod Size
use Prim.Native.String.{String}
use text.Mathlib.Text.{◌==◌ as str_eq}
use libvncserver.Base.{
  ℕ, zero, suc, ◌+◌, ◌-◌, Bool, true, false, List, [], ◌∷◌, ◌++◌, if◌then◌else◌, ◌==◌, leb, ltb,
  Option, none, some, length, take, drop,
}
use libvncserver.Base.Int.{ℤ}

-- `rfbPurgeArguments` on the arguments up to `argc`: it returns those up to the new `argc`.
unfoldable pub purge_arguments : ℕ → ℕ → List String → List String
purge_arguments position count argv = take position argv ++ drop (position + count) argv

-- `authPasswdData`: the name of a file, or the list of one password that `-passwd` makes.
pub data PasswdData : Type 0 where
  no_passwd : PasswdData
  passwd_file : String → PasswdData
  passwd_list : String → PasswdData

-- The fields of the screen that the options set.
pub record Screen : Type 0 where
  pub port : ℤ
  pub ipv6port : ℤ
  pub max_client_wait : ℤ
  pub auth_passwd_data : PasswdData
  pub check_by_list : Bool
  pub permit_file_transfer : Bool
  pub version : ℤ × ℤ
  pub defer_update_time : ℤ
  pub defer_ptr_update_time : ℤ
  pub desktop_name : Option String
  pub always_shared : Bool
  pub never_shared : Bool
  pub dont_disconnect : Bool
  pub http_dir : Option String
  pub http_port : ℤ
  pub http6_port : ℤ
  pub http_enable_proxy_connect : Bool
  pub progressive_slice_height : ℤ
  pub listen_interface : ℕ
  pub listen6_interface : Option String
  pub ssl_keyfile : Option String
  pub ssl_certfile : Option String

-- What the chain of `strcmp` does for an option: print the usage, set a flag, or take a value.
pub data Action : Type 0 where
  help : Action
  flag : (Screen → Screen) → Action
  value : (String → Screen → Option Screen) → Action

-- An option whose value is always taken.
unfoldable pub setter : (String → Screen → Screen) → Action
setter f = value (λ v s. some (f v s))

-- The C library and the code of other files that the options call: `atoi`; `sscanf` with "%d.%d",
-- which keeps a number that it does not find; `malloc` for `-passwd`; `rfbStringToAddr`, none where
-- it fails; and the `processArgument` functions of the extensions, in turn, on the arguments from
-- the option on, with the number that they handled.
pub record Services : Type 0 where
  pub atoi : String → ℤ
  pub scan_version : String → ℤ × ℤ → ℤ × ℤ
  pub room : Bool
  pub string_to_addr : String → Option ℕ
  pub handled : List String → ℕ

module _ (k : Services) where
  -- The options, in the order of the chain, for a build with IPv6 and WebSockets.
  unfoldable pub first_options : List (String × Action)
  unfolding setter
  first_options =
      ("-help", help)
      ∷ ("-rfbport", setter (λ v s. record s { port = k.atoi v }))
      ∷ ("-rfbportv6", setter (λ v s. record s { ipv6port = k.atoi v }))
      ∷ ("-rfbwait", setter (λ v s. record s { max_client_wait = k.atoi v }))
      ∷ ("-rfbauth", setter (λ v s. record s { auth_passwd_data = passwd_file v }))
      ∷ ("-permitfiletransfer", flag (λ s. record s { permit_file_transfer = true }))
      ∷ ("-rfbversion", setter (λ v s. record s { version = k.scan_version v s.version }))
      ∷ (
        "-passwd",
        value (λ v s.
            if k.room
            then some (record s { auth_passwd_data = passwd_list v; check_by_list = true })
            else none),
      )
      ∷ ("-deferupdate", setter (λ v s. record s { defer_update_time = k.atoi v }))
      ∷ ("-deferptrupdate", setter (λ v s. record s { defer_ptr_update_time = k.atoi v }))
      ∷ ("-desktop", setter (λ v s. record s { desktop_name = some v }))
      ∷ []

  unfoldable pub last_options : List (String × Action)
  unfolding setter
  last_options =
      ("-alwaysshared", flag (λ s. record s { always_shared = true }))
      ∷ ("-nevershared", flag (λ s. record s { never_shared = true }))
      ∷ ("-dontdisconnect", flag (λ s. record s { dont_disconnect = true }))
      ∷ ("-httpdir", setter (λ v s. record s { http_dir = some v }))
      ∷ ("-httpport", setter (λ v s. record s { http_port = k.atoi v }))
      ∷ ("-httpportv6", setter (λ v s. record s { http6_port = k.atoi v }))
      ∷ ("-enablehttpproxy", flag (λ s. record s { http_enable_proxy_connect = true }))
      ∷ ("-progressive", setter (λ v s. record s { progressive_slice_height = k.atoi v }))
      ∷ (
        "-listen",
        value (λ v s. elim (k.string_to_addr v) [
          | none ↦ none
          | some a ↦ some (record s { listen_interface = a })
        ]),
      )
      ∷ ("-listenv6", setter (λ v s. record s { listen6_interface = some v }))
      ∷ ("-sslkeyfile", setter (λ v s. record s { ssl_keyfile = some v }))
      ∷ ("-sslcertfile", setter (λ v s. record s { ssl_certfile = some v }))
      ∷ []

-- The first option of the name.
unfoldable pub find_option : List (String × Action) → String → Option Action
find_option [] name = none
find_option ((n, a) ∷ l) name = if str_eq name n then some a else find_option l name

-- What one round of `rfbProcessArguments` decides: return `FALSE`, leave the argument in place, or
-- remove a number of them.
pub data Verdict : Type 0 where
  reject : Verdict
  keep : Verdict
  remove : ℕ → Screen → Verdict

unfoldable pub decide : Option Action → ℕ → Screen → List String → Verdict
decide none n s rest = if n == 0 then keep else remove n s
decide (some help) n s rest = reject
decide (some (flag f)) n s rest = remove 1 (f s)
decide (some (value f)) n s [] = reject
decide (some (value f)) n s (v ∷ rest) = elim (f v s) [ none ↦ reject | some s' ↦ remove 2 s' ]

module _ (k : Services) where
  -- For an argument and those behind it; the extensions are asked about what is no option.
  unfoldable pub classify : Screen → String → List String → Verdict
  unfolding first_options last_options find_option decide
  classify s arg rest =
      decide (find_option (first_options k ++ last_options k) arg) (k.handled (arg ∷ rest)) s rest

  -- The loop from `i = i1` on; each round passes an argument or removes at least one, so that
  -- `argc` rounds are enough. The result is the return value, the screen and the arguments left.
  pub process_loop : ℕ → ℕ → Screen → List String → Bool × Screen × List String
  unfolding classify purge_arguments
  process_loop zero i s argv = (true, s, argv)
  process_loop (suc fuel) i s argv = elim (drop i argv) [
    | [] ↦ (true, s, argv)
    | arg ∷ rest ↦ elim (classify s arg rest) [
      | reject ↦ (false, s, argv)
      | keep ↦ process_loop fuel (i + 1) s argv
      | remove n s' ↦ process_loop fuel i s' (purge_arguments i n argv)
    ]
  ]

  -- `rfbProcessArguments`, with a pointer `argc` that is not NULL
  pub process_arguments : Screen → List String → Bool × Screen × List String
  unfolding process_loop
  process_arguments s argv = process_loop (length argv) 1 s argv
