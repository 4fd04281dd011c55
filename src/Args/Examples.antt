-- ===== src/Args/Examples.antt =====
-- `rfbProcessArguments` of libvncserver/cargs.c on a command line.
use Prim.Native.String.{String}
use libvncserver.Base.{true, false, List, [], ◌∷◌, ◌≡◌, refl, none}
use libvncserver.Base.Int.{pos}
use libvncserver.Args.{
  Services, Screen, no_passwd, process_arguments, process_loop, classify, decide, find_option,
  first_options, last_options, purge_arguments,
}
use libvncserver.Args.Size.{
  Sizes, SizeProcessed, process_size_arguments, process_size_arguments_lem,
}
use libvncserver.Args.Laws.{Processed, process_arguments_lem}

-- Every number is 7, and there are no extensions.
abbrev plain : Services
plain = record {
  atoi = λ v. pos 7;
  scan_version = λ v old. old;
  room = true;
  string_to_addr = λ v. none;
  handled = λ args. 0;
}

abbrev screen : Screen
screen = record {
  port = pos 5900;
  ipv6port = pos 5900;
  max_client_wait = pos 20000;
  auth_passwd_data = no_passwd;
  check_by_list = false;
  permit_file_transfer = false;
  version = (pos 3, pos 8);
  defer_update_time = pos 5;
  defer_ptr_update_time = pos 0;
  desktop_name = none;
  always_shared = false;
  never_shared = false;
  dont_disconnect = false;
  http_dir = none;
  http_port = pos 0;
  http6_port = pos 0;
  http_enable_proxy_connect = false;
  progressive_slice_height = pos 0;
  listen_interface = 0;
  listen6_interface = none;
  ssl_keyfile = none;
  ssl_certfile = none;
}

abbrev line : List String
line = "file" ∷ "-rfbport" ∷ "7" ∷ "-nevershared" ∷ "more" ∷ []

left : (process_arguments plain screen ("x" ∷ line)).2 ≡ "x" ∷ "file" ∷ "more" ∷ []
unfolding process_arguments process_loop classify decide find_option first_options last_options
    purge_arguments
left = refl

process_arguments_lem_example :
    (out : List String) × ((process_arguments plain screen ("x" ∷ line)).2 ≡ "x" ∷ out)
    × Processed plain screen line
        (process_arguments plain screen ("x" ∷ line)).0
        (process_arguments plain screen ("x" ∷ line)).1
        out
process_arguments_lem_example = process_arguments_lem plain screen "x" line

abbrev sizes : Sizes
sizes = record { width = pos 800; height = pos 600; bpp = pos 4 }

abbrev size_line : List String
size_line = "file" ∷ "-width" ∷ "7" ∷ []

process_size_arguments_lem_example :
    let r = process_size_arguments plain.atoi sizes ("x" ∷ size_line) in
    (out : List String) × (r.1 ≡ "x" ∷ out) × SizeProcessed plain.atoi sizes size_line r.0 out
process_size_arguments_lem_example = process_size_arguments_lem plain.atoi sizes "x" size_line
