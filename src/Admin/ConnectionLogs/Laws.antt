-- ===== src/Admin/ConnectionLogs/Laws.antt =====
-- The rows of pages/ConnectionLogs.tsx: their making never fails, and whom they name.
use native.Mathlib.Nat.{mod-lt, mod-eq_of_lt, add-mod_right}
use wow_vpn.Common.{
  ℕ, zero, suc, ◌+◌, ◌*◌, ◌%◌, ◌<◌, max, ◌≡◌, refl, sym, ap, ◌∙◌, String, some, List, [], ◌∷◌,
  length, arith, decimal,
}
use wow_vpn.Admin.ConnectionLogs.{
  Client, Log, nth, events, ips, client_of, status_of, log_row, log_rows, generated,
}

nth_within {ℓ} : {A : Type ℓ} (xs : List A) (i : ℕ) → i < length xs → (a : A) × (nth xs i ≡ some a)
nth_within [] i h = absurd (omega (arith, h))
nth_within (x ∷ xs) zero h = (x, refl)
nth_within (x ∷ xs) (suc i) h = nth_within xs i (omega (arith, h))

nth_only {ℓ} : {A : Type ℓ} (xs : List A) (i : ℕ) (a : A) → nth xs i ≡ some a → i < length xs
nth_only [] i a e = ground arith
nth_only (x ∷ xs) zero a e = omega arith
nth_only (x ∷ xs) (suc i) a e = omega (arith, nth_only xs i a e)

client_of_defined : (clients : List Client) (i : ℕ) → (c : Client) × (client_of clients i ≡ some c)
unfolding client_of
client_of_defined [] i = (record { username = "—" }, refl)
client_of_defined (c ∷ cs) i = nth_within (c ∷ cs) (i % length (c ∷ cs)) (mod-lt i (omega arith))

module _ (time_back : ℕ → String) where
  -- The row of a client.
  abbrev pub row_of : Client → ℕ → String → String → Log
  row_of c i event ip = record {
    id = decimal i;
    timestamp = time_back (i * 120000);
    client = c.username;
    event = event;
    ip = ip;
    status = status_of i;
  }

  log_row_of :
      (clients : List Client) (i : ℕ) (c : Client)
      → client_of clients i ≡ some c
      → (event : String) × (ip : String) × (log_row time_back clients i
          ≡ some (row_of c i event ip))
  unfolding log_row
  log_row_of clients i c e =
      let (event, f) = nth_within events (i % 5) (mod-lt i (omega arith)) in
      let (ip, g) = nth_within ips (i % 5) (mod-lt i (omega arith)) in
      (event, ip, rw (e, f, g) refl)

  rows_from :
      (clients : List Client) (count i : ℕ) (row : Log) (rows : List Log)
      → log_row time_back clients i ≡ some row
      → ((k : ℕ) → k < count → nth rows k ≡ log_row time_back clients (i + 1 + k))
      → (k : ℕ) → k < suc count
      → nth (row ∷ rows) k ≡ log_row time_back clients (i + k)
  rows_from clients count i row rows e h zero l =
      sym e ∙ ap (log_row time_back clients) (omega arith)
  rows_from clients count i row rows e h (suc k) l =
      h k (omega (arith, l)) ∙ ap (log_row time_back clients) (omega arith)

  log_rows_of :
      (clients : List Client) (count i : ℕ)
      → (rows : List Log) × (log_rows time_back clients count i ≡ some rows)
        × (length rows ≡ count)
        × ((k : ℕ) → k < count → nth rows k ≡ log_row time_back clients (i + k))
  unfolding log_rows
  log_rows_of clients zero i = ([], refl, refl, λ k h. absurd (omega (arith, h)))
  log_rows_of clients (suc count) i =
      let (c, e) = client_of_defined clients i in
      let (event, ip, made) = log_row_of clients i c e in
      let (rows, more, size, each) = log_rows_of clients count (i + 1) in
      (
        row_of c i event ip ∷ rows,
        rw (made, more) refl,
        ap suc size,
        rows_from clients count i (row_of c i event ip) rows made each,
      )

  -- The rows name the client at this place of the list in row i.
  abbrev pub Names : List Log → ℕ → Client → Type 0
  Names logs i c = (row : Log) × (nth logs i ≡ some row) × (row.client ≡ c.username)

  client_of-nth :
      (clients : List Client) (i : ℕ) (c : Client)
      → nth clients i ≡ some c
      → (client_of clients i ≡ some c) × (client_of clients (i + length clients) ≡ some c)
  unfolding client_of
  client_of-nth [] i c e = ground arith
  client_of-nth (d ∷ ds) i c e =
      let low = nth_only (d ∷ ds) i c e in
      (
        ap (nth (d ∷ ds)) (mod-eq_of_lt low) ∙ e,
        ap (nth (d ∷ ds)) (add-mod_right i (length (d ∷ ds)) ∙ mod-eq_of_lt low) ∙ e,
      )

  Names-log_row :
      (clients : List Client) (logs : List Log) (i : ℕ) (c : Client)
      → client_of clients i ≡ some c
      → nth logs i ≡ log_row time_back clients i
      → Names logs i c
  Names-log_row clients logs i c e h =
      let (event, ip, made) = log_row_of clients i c e in (row_of c i event ip, h ∙ made, refl)

  -- The rows are made without an error, whatever the clients are: twice as many as the clients, and
  -- at least eight.
  pub generated-defined :
      (clients : List Client)
      → (logs : List Log) × (generated time_back clients ≡ some logs)
        × (length logs ≡ max (length clients * 2) 8)
  unfolding generated
  generated-defined clients =
      let (logs, made, size, each) = log_rows_of clients (max (length clients * 2) 8) 0 in
      (logs, made, size)

  -- For a client of the list at place i: the rows are made without an error, and name the client in
  -- row i and again one round of the list later.
  pub generated-Names :
      (clients : List Client) (i : ℕ) (c : Client)
      → nth clients i ≡ some c
      → (logs : List Log) × (generated time_back clients ≡ some logs)
        × Names logs i c
        × Names logs (i + length clients) c
  unfolding generated
  generated-Names clients i c e =
      let (logs, made, size, each) = log_rows_of clients (max (length clients * 2) 8) 0 in
      let low = nth_only clients i c e in
      let (once, again) = client_of-nth clients i c e in
      (
        logs,
        made,
        Names-log_row clients logs i c once
            (each i (omega (arith, low)) ∙ ap (log_row time_back clients) (omega arith)),
        Names-log_row clients logs (i + length clients) c again (
            each (i + length clients) (omega (arith, low))
            ∙ ap (log_row time_back clients) (omega arith)),
      )
