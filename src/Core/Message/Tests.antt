-- ===== src/Core/Message/Tests.antt =====
-- The tests of tests/core/test_message.cpp and test_message_factories.cpp, and inputs at which the
-- theorems about messages apply.
use mpcc.Common.{refl, false, ◌≡◌, [], codes, find, arith}
use mpcc.Core.Message.{
  Message, parse, serialise, is_valid, make_exit, make_menu, make_msg, make_bcast, make_reg,
}
use mpcc.Core.Message.RoundTrip.{parse-serialise, EndsClean, body, strip-eq_self}
use mpcc.Core.Message.Factories.{factories_arrive, Frame}

factory_wires :
    (serialise make_exit ≡ codes "EXIT\n")
    × (serialise make_menu ≡ codes "MENU:1=Register 2=Login\n")
    × (serialise (make_msg (codes "hi")) ≡ codes "MSG:hi\n")
    × (serialise (make_reg (codes "alice") (codes "p")) ≡ codes "REG:alice:p\n")
    × (serialise (make_bcast (codes "alice") (codes "hello")) ≡ codes "BCAST:[alice]: hello\n")
unfolding serialise make_exit make_menu make_msg make_reg make_bcast
factory_wires = (refl, refl, refl, refl, refl)

abbrev hello : Message
hello = record { type = codes "BCAST"; payload = codes "[alice]: hello:world" }

parse_splits_at_first_colon :
    (parse (codes "EXIT\n") ≡ record { type = codes "EXIT"; payload = [] })
    × (parse (codes "BCAST:[alice]: hello:world\n") ≡ hello)
    × (parse (codes "OK:done\r\n") ≡ record { type = codes "OK"; payload = codes "done" })
    × (is_valid (parse (codes "\r\n")) ≡ false)
unfolding parse find is_valid
parse_splits_at_first_colon = (refl, refl, refl, refl)

hello-EndsClean : EndsClean (body hello)
unfolding parse body
hello-EndsClean = (strip-eq_self (codes "BCAST:[alice]: hello:world")).0 refl

parse-serialise_example : parse (serialise hello) ≡ hello
parse-serialise_example = (parse-serialise hello).1 (omega arith, hello-EndsClean)

factories_arrive_example :
    Frame (make_bcast (codes "al:ice") (codes "a:b")) (codes "BCAST") (codes "[al:ice]: a:b")
unfolding parse
factories_arrive_example =
    (factories_arrive (codes "a:b") (λ e. cc) ((strip-eq_self (codes "a:b")).0 refl)
      (codes "al:ice")).5
