-- ===== src/Main/Ports.antt =====
-- The port number on its way from the command lines of the two programs to their sockets.
use mpcc.Common.{
  ℕ, suc, ◌+◌, ◌*◌, ◌^◌, ◌<◌, ◌≡◌, refl, ap, ◌∙◌, Bool, true, false, some, [], ◌∷◌, codes, arith,
  Bool-cases, inl, inr, if◌then◌else◌, ◌==◌,
}
use mpcc.Common.Scan.{ℤ, pos, negsuc, to_uint16, show_int}
use mpcc.Core.UniqueFd
use mpcc.Client
use mpcc.Client.{SendAnswer, connect_to_server}
use mpcc.Server.Listener
use mpcc.Server.Listener.{create_socket, bind_socket, listen_socket, listening, start}
use mpcc.Main.{
  Parsed, goes_on, ServerSurroundings, ClientSurroundings, ClientOptions, client_args, server_main,
  server_defaults, client_defaults, waits, status, with_options, run_server,
}
use mpcc.Main.CommandLine.{port_is, server_args-command_line}
use mpcc.Main.Numbers.{IsInt, stoi-show_int}

-- The port is `r` up to a multiple `k` of 2^16.
abbrev pub Residue : ℤ → ℕ → ℕ → Type 0
Residue (pos n) r k = n ≡ r + k * 2 ^ 16
Residue (negsuc n) r k = suc n + r ≡ k * 2 ^ 16

to_uint16-Residue : (z : ℤ) (r k : ℕ) → r < 2 ^ 16 → Residue z r k → to_uint16 z ≡ r
unfolding to_uint16
to_uint16-Residue (pos n) r k small h = omega (arith, small, h)
to_uint16-Residue (negsuc n) r k small h = omega (arith, small, h)

-- How the client's connect_to_server() ends.
abbrev pub connected : {A : Type 0} → Client.Result A → Bool
connected (Client.returned x s) = true
connected (Client.thrown what s) = false
connected Client.out_of_fuel = false

-- The client that main makes.
abbrev pub client_of : ClientSurroundings → ClientOptions → Client.State
client_of e o = Client.init o.host o.port e.input e.answers e.stdin [] e.net e.threads

abbrev pub connects : ClientSurroundings → Parsed ClientOptions → Bool
connects e (goes_on o) = connected (connect_to_server e.host (client_of e o))
connects e parsed = false

module _ (z : ℤ) (int : IsInt z) where
  client_reads :
      client_args (codes "--port" ∷ show_int z ∷ []) client_defaults
      ≡ goes_on (record client_defaults { port = z })
  unfolding client_args ◌==◌
  client_reads = rw (stoi-show_int z int) refl

  -- No port that std::stoi reads is refused by the programs. Let the int `z` be `r` modulo 2^16, below
  -- 2^16. The server, started with --port z where ::socket and ::listen succeed, waits for clients if
  -- ::bind takes the port `r`, and else exits with a failure. The client, started with --port z where
  -- ::socket and ::inet_pton succeed, connects exactly if ::connect takes the port `r` of its host.
  pub port_modulo :
      (e : ServerSurroundings) (c : ClientSurroundings) (r k fd fd' : ℕ)
      → r < 2 ^ 16
      → Residue z r k
      → e.host.socket ≡ some fd
      → e.host.listen (pos 10) ≡ true
      → c.host.socket ≡ some fd'
      → c.host.inet_pton (codes "127.0.0.1") ≡ true
      → (server_main e [] (codes "--port" ∷ show_int z ∷ [])
          ≡ (if e.host.bind r then waits else status false))
        × (connects c (client_args (codes "--port" ∷ show_int z ∷ []) client_defaults)
            ≡ c.host.connect (record { host = codes "127.0.0.1"; port = r }))
  unfolding server_main start listening create_socket bind_socket listen_socket Listener.accept_loop
      Listener.init connect_to_server Client.open_socket Client.init UniqueFd.reset UniqueFd.valid
  port_modulo e c r k fd fd' small h opened heard opened' address = (
    ap (λ p. with_options (run_server e []) p)
          (server_args-command_line ((true, port_is z) ∷ []) server_defaults (int, tt))
        ∙ rw opened (
            rw (to_uint16-Residue z r k small h) (elim (Bool-cases (e.host.bind r)) [
              | inl taken ↦ rw (taken, heard) refl
              | inr refused ↦ rw refused refl
            ])),
    ap (connects c) client_reads
        ∙ rw opened' (
            rw address (
              rw (to_uint16-Residue z r k small h)
                (elim (Bool-cases
                  (c.host.connect (record { host = codes "127.0.0.1"; port = r }))) [
                    | inl taken ↦ rw taken refl
                    | inr refused ↦ rw refused refl
                  ]))),
  )
