-- ===== src/Client/Table/Text.antt =====
-- The table that dumpNeighbourData of source/src/client_main.cc prints, as a text.
use link_layer_discovery.Base.{
  ℕ, ◌≡◌, false, List, [], ◌∷◌, ◌++◌, arith, All, ◌==◌, ◌∙◌, if◌then◌else◌, map,
}
use link_layer_discovery.Base.Words.{IsByte}
use link_layer_discovery.Base.Map.{Map}
use link_layer_discovery.Base.Stream.{
  Stream, codes, put_text, number, Prints, put_text-Prints, put_number-Prints, Prints-append,
  Prints-nothing,
}
use link_layer_discovery.Lldp.Log.{Ntop}
use link_layer_discovery.Lldp.Log.Text.{
  ipv4_text, ipv6_text, port_kind, kind_text, log_ipv4-Prints, log_ipv6-Prints, log_port-Prints,
}
use link_layer_discovery.Client.Receive.{NeighbourDeviceData}
use link_layer_discovery.Client.Table.{
  log_family, log_port_type, name_or_missing, tab, print_row, print_rows, heading, print_table,
}

abbrev family_text : List ℕ → List ℕ
family_text [] = codes "INVALID"
family_text (family ∷ address) =
    if family == 6
    then codes "MAC"
    else if family == 1
    then codes "IPv4"
    else if family == 2
    then codes "IPv6"
    else (codes "UNKNOWN(" ++ number false family) ++ codes ")"

abbrev pub type_text : List ℕ → List ℕ
type_text [] = codes "Missing..."
type_text (subtype ∷ value) =
    if subtype == 3
    then codes "MAC"
    else if subtype == 7
    then codes "LOCAL"
    else if subtype == 4
    then (codes "NET(" ++ family_text value) ++ codes ")"
    else codes "UNKNOWN"

log_family-Prints :
    (value : List ℕ) (s : Stream)
    → s.hex ≡ false
    → Prints (family_text value) s (log_family value s)
unfolding log_family
log_family-Prints [] s decimal = put_text-Prints (codes "INVALID") s
log_family-Prints (family ∷ address) s decimal =
    let open_text = codes "UNKNOWN(" in
    let start = put_text-Prints open_text s in
    let number_printed =
      put_number-Prints family (put_text open_text s) (start.same_base ∙ decimal) in
    let unknown =
      Prints-append (Prints-append start number_printed) (put_text-Prints (codes ")") _) in
    ground (
      arith,
      put_text-Prints (codes "MAC") s,
      put_text-Prints (codes "IPv4") s,
      put_text-Prints (codes "IPv6") s,
      unknown,
    )

log_port_type-Prints :
    (port : List ℕ) (s : Stream) → s.hex ≡ false → Prints (type_text port) s (log_port_type port s)
unfolding log_port_type
log_port_type-Prints [] s decimal = put_text-Prints (codes "Missing...") s
log_port_type-Prints (subtype ∷ value) s decimal =
    let start = put_text-Prints (codes "NET(") s in
    let family = log_family-Prints value (put_text (codes "NET(") s) (start.same_base ∙ decimal) in
    let net = Prints-append (Prints-append start family) (put_text-Prints (codes ")") _) in
    ground (
      arith,
      put_text-Prints (codes "MAC") s,
      put_text-Prints (codes "LOCAL") s,
      put_text-Prints (codes "UNKNOWN") s,
      net,
    )

-- The cells of a line, after the first one, with tabs between them.
abbrev pub columns : List ℕ → List (List ℕ) → List ℕ
columns first [] = first ++ codes "\n"
columns first (cell ∷ cells) = columns ((first ++ codes "\t") ++ cell) cells

-- The line of a neighbour.
abbrev pub row_text : Ntop → NeighbourDeviceData → List ℕ
row_text ntop d = columns d.chassis (
    name_or_missing d.local_interface_name
    ∷ type_text d.port
    ∷ kind_text ntop (port_kind d.port)
    ∷ ipv4_text ntop d.ipv4_address
    ∷ ipv6_text ntop d.ipv6_address
    ∷ [])

abbrev pub rows_text : Ntop → Map ℕ NeighbourDeviceData → List ℕ
rows_text ntop [] = []
rows_text ntop ((key, value) ∷ map) = row_text ntop value ++ rows_text ntop map

-- The heading, a line for each neighbour, and an empty line.
abbrev pub table_text : Ntop → Map ℕ NeighbourDeviceData → List ℕ
table_text ntop map = (heading ++ rows_text ntop map) ++ codes "\n"

-- The ports are bytes.
abbrev pub HasPort : ℕ × NeighbourDeviceData → Type 0
HasPort (key, value) = All IsByte value.port

-- A tab and the next cell.
Prints-cell :
    {xs ys : List ℕ} {s t u : Stream}
    → Prints xs s t
    → Prints ys (tab t) u
    → Prints ((xs ++ codes "\t") ++ ys) s u
Prints-cell {t = t} p q = Prints-append (Prints-append p (put_text-Prints (codes "\t") t)) q

print_row-Prints :
    (ntop : Ntop) (d : NeighbourDeviceData) (s : Stream)
    → All IsByte d.port
    → s.hex ≡ false
    → Prints (row_text ntop d) s (print_row ntop d s)
unfolding print_row
print_row-Prints ntop d s bytes decimal =
    let chassis = put_text-Prints d.chassis s in
    let name = Prints-cell chassis (put_text-Prints (name_or_missing d.local_interface_name) _) in
    let base = Prints-append name (put_text-Prints (codes "\t") _) in
    let type = Prints-cell name (log_port_type-Prints d.port _ (base.same_base ∙ decimal)) in
    let port = Prints-cell type (log_port-Prints ntop d.port _ bytes) in
    let ipv4 = Prints-cell port (log_ipv4-Prints ntop d.ipv4_address _) in
    let ipv6 = Prints-cell ipv4 (log_ipv6-Prints ntop d.ipv6_address _) in
    Prints-append ipv6 (put_text-Prints (codes "\n") _)

print_rows-Prints :
    (ntop : Ntop) (map : Map ℕ NeighbourDeviceData) (s : Stream)
    → All HasPort map
    → s.hex ≡ false
    → Prints (rows_text ntop map) s (print_rows ntop map s)
unfolding print_rows
print_rows-Prints ntop [] s all decimal = Prints-nothing s
print_rows-Prints ntop ((key, value) ∷ map) s all decimal =
    let first = print_row-Prints ntop value s all.0 decimal in
    Prints-append first
      (print_rows-Prints ntop map (print_row ntop value s) all.1 (first.same_base ∙ decimal))

-- On a stream in decimal dumpNeighbourData writes the heading, one line for each neighbour in the order of the map, with
-- its cells separated by tabs, and an empty line; the numbers that it prints in hexadecimal leave no trace in
-- the later ones, and the stream is in decimal again.
pub print_table-Prints :
    (ntop : Ntop) (map : Map ℕ NeighbourDeviceData) (s : Stream)
    → All HasPort map
    → s.hex ≡ false
    → Prints (table_text ntop map) s (print_table ntop map s)
unfolding print_table
print_table-Prints ntop map s all decimal =
    let head = put_text-Prints heading s in
    let rows = print_rows-Prints ntop map (put_text heading s) all (head.same_base ∙ decimal) in
    Prints-append (Prints-append head rows) (put_text-Prints (codes "\n") _)
