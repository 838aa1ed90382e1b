-- ===== src/Stream/Tests.antt =====
-- The theorems at a request that attaches to a terminal.
use Prim.Native.String.{len}
use astra_shell.Prelude.{ℕ, ◌≡◌, ◌↔◌, ◌+◌, refl, some, false}
use astra_shell.Prelude.Result.{ok}
use astra_shell.Stream.Request.{Command, Request}
use astra_shell.Stream.Channel.{
  terminal, StreamHello, Channel, command_channel, request_channel, hello_of, validate_hello,
  hello_for_request, validate_request,
}
use astra_shell.Stream.Identity.{
  Opens, validate_request-hello_for_request, validate_request-hello_of, validate_hello_iff,
}

abbrev attaching : Request
attaching = record {
  request_id = "r1";
  command = some (
      Command.attach (record {
        client_instance_id = "c1";
        terminal_id = "t1";
        read_only = false;
        takeover = false;
        resume_token = "";
        workspace_id = "w1";
      }));
}

abbrev size : StreamHello → ℕ
size hello = 20 + len hello.handle + len hello.request_id

abbrev opening : StreamHello
opening = hello_of (terminal, "t1") attaching 7

opening_run : hello_for_request size attaching 7 ≡ ok opening
unfolding hello_for_request request_channel command_channel validate_hello
opening_run = refl

attach_run : validate_request size opening attaching 7 ≡ ok tt
attach_run = validate_request-hello_for_request size attaching 7 opening opening_run

bound_example :
    (channel : Channel) × (request_channel attaching ≡ ok channel)
    × (opening ≡ hello_of channel attaching 7)
bound_example = validate_request-hello_of size attaching 7 opening attach_run

opening_example : (validate_hello size opening 7 ≡ ok terminal) ↔ Opens size 7 opening terminal
opening_example = validate_hello_iff size opening 7 terminal
