-- ===== src/Exec/Key.antt =====
-- v2/src/execution-core/idempotency.ts: the idempotency key.
use Prim.Native.Char.{Char, code}
use Prim.Native.String.{◌++◌ as ◌^◌}
use Prim.Native.String.{String, [] as no_text, ◌∷◌ as ◌∷ᶜ◌}
use Prim.Native.String.append
use text.Mathlib.Text.{◌==◌}
use hashi_bot.Base.{
  ◌≡◌, refl, ap, ◌∙◌, Bool, true, not, ◌&&◌, nat_eq, Option, some, none, List, [], ◌∷◌, All, arith,
  if◌then◌else◌,
}
use hashi_bot.Exec.Types.{Platform, CommandAction}

pub record KeyInput : Type 0 where
  pub signal_id : String
  pub customer_id : String
  pub executor_id : String
  pub account_id : String
  pub adapter_type : Platform
  pub action : CommandAction
  pub purpose : String

abbrev pub platform_text : Platform → String
platform_text Platform.binance = "Binance"
platform_text Platform.bybit = "Bybit"
platform_text Platform.mt5 = "MT5"
platform_text Platform.mock = "Mock"

abbrev pub action_text : CommandAction → String
action_text CommandAction.open_position = "OpenPosition"
action_text CommandAction.move_stop_loss = "MoveStopLoss"
action_text CommandAction.move_take_profit = "MoveTakeProfit"
action_text CommandAction.synchronize = "Synchronize"
action_text CommandAction.partial_close = "PartialClose"
action_text CommandAction.start_trailing = "StartTrailing"
action_text CommandAction.repair_protection = "RepairProtection"
action_text CommandAction.safe_close = "SafeClose"

abbrev pub parts : KeyInput → List String
parts input =
    input.signal_id
    ∷ input.customer_id
    ∷ input.executor_id
    ∷ input.account_id
    ∷ platform_text input.adapter_type
    ∷ action_text input.action
    ∷ input.purpose
    ∷ []

-- `texts.join("|")`
abbrev pub join_bar : List String → String
join_bar [] = ""
join_bar (text ∷ []) = text
join_bar (text ∷ next ∷ texts) = text ^ "|" ^ join_bar (next ∷ texts)

unfoldable pub build_idempotency_key : KeyInput → String
build_idempotency_key input = join_bar (parts input)

abbrev pub is_bar : Char → Bool
is_bar c = nat_eq (code c) 124

abbrev pub has_no_bar : String → Bool
has_no_bar no_text = true
has_no_bar (c ∷ᶜ s) = not (is_bar c) && has_no_bar s

abbrev push : Char → List String → List String
push c [] = (c ∷ᶜ no_text) ∷ []
push c (text ∷ texts) = (c ∷ᶜ text) ∷ texts

-- The inverse: the texts between the bars.
abbrev pub split_bar : String → List String
split_bar no_text = no_text ∷ []
split_bar (c ∷ᶜ s) = let texts = split_bar s in if is_bar c then no_text ∷ texts else push c texts

split_bar-plain : (text : String) → has_no_bar text ≡ true → split_bar text ≡ text ∷ []
split_bar-plain no_text h = refl
split_bar-plain (c ∷ᶜ s) h = ground (arith, split_bar-plain s)

split_bar-bar :
    (text rest : String)
    → has_no_bar text ≡ true
    → split_bar (text ^ "|" ^ rest) ≡ text ∷ split_bar rest
split_bar-bar no_text rest h =
    ap split_bar (append.nil ("|" ^ rest) ∙ append.cons _ no_text rest)
    ∙ ap (λ t. "" ∷ split_bar t) (append.nil rest)
split_bar-bar (c ∷ᶜ s) rest h =
    ap split_bar (append.cons c s ("|" ^ rest)) ∙ ground (arith, split_bar-bar s rest)

pub split_bar-join :
    (text : String) (texts : List String)
    → All (λ t. has_no_bar t ≡ true) (text ∷ texts)
    → split_bar (join_bar (text ∷ texts)) ≡ text ∷ texts
split_bar-join text [] (h, hs) = split_bar-plain text h
split_bar-join text (next ∷ texts) (h, hs) =
    split_bar-bar text (join_bar (next ∷ texts)) h
    ∙ ap (λ ts. text ∷ ts) (split_bar-join next texts hs)

abbrev pub read_platform : String → Platform
read_platform t =
    if t == "Binance"
    then Platform.binance
    else if t == "Bybit"
    then Platform.bybit
    else if t == "MT5"
    then Platform.mt5
    else Platform.mock

abbrev pub read_action : String → CommandAction
read_action t =
    if t == "OpenPosition"
    then CommandAction.open_position
    else if t == "MoveStopLoss"
    then CommandAction.move_stop_loss
    else if t == "MoveTakeProfit"
    then CommandAction.move_take_profit
    else if t == "Synchronize"
    then CommandAction.synchronize
    else if t == "PartialClose"
    then CommandAction.partial_close
    else if t == "StartTrailing"
    then CommandAction.start_trailing
    else if t == "RepairProtection"
    then CommandAction.repair_protection
    else CommandAction.safe_close

abbrev pub read_parts : List String → Option KeyInput
read_parts (a ∷ b ∷ c ∷ d ∷ e ∷ f ∷ g ∷ []) = some (record {
  signal_id = a;
  customer_id = b;
  executor_id = c;
  account_id = d;
  adapter_type = read_platform e;
  action = read_action f;
  purpose = g;
})
read_parts _ = none

-- What a key is read back as.
abbrev pub read_key : String → Option KeyInput
read_key key = read_parts (split_bar key)

-- The texts of the input that the program does not choose itself, and the purpose, have no bar.
abbrev pub HasNoBars : KeyInput → Type 0
HasNoBars input =
    All (λ t. has_no_bar t ≡ true)
      (input.signal_id ∷ input.customer_id ∷ input.executor_id ∷ input.account_id ∷ input.purpose
        ∷ [])

platform_text-plain :
    (p : Platform) → (has_no_bar (platform_text p) ≡ true) × (read_platform (platform_text p) ≡ p)
platform_text-plain Platform.binance = (refl, refl)
platform_text-plain Platform.bybit = (refl, refl)
platform_text-plain Platform.mt5 = (refl, refl)
platform_text-plain Platform.mock = (refl, refl)

action_text-plain :
    (a : CommandAction) → (has_no_bar (action_text a) ≡ true) × (read_action (action_text a) ≡ a)
action_text-plain CommandAction.open_position = (refl, refl)
action_text-plain CommandAction.move_stop_loss = (refl, refl)
action_text-plain CommandAction.move_take_profit = (refl, refl)
action_text-plain CommandAction.synchronize = (refl, refl)
action_text-plain CommandAction.partial_close = (refl, refl)
action_text-plain CommandAction.start_trailing = (refl, refl)
action_text-plain CommandAction.repair_protection = (refl, refl)
action_text-plain CommandAction.safe_close = (refl, refl)

-- An idempotency key whose texts have no bar in them determines what it was built from.
pub read_key-build :
    (input : KeyInput) → HasNoBars input → read_key (build_idempotency_key input) ≡ some input
unfolding build_idempotency_key
read_key-build input (h0, (h1, (h2, (h3, (h6, _))))) =
    let (plain_platform, platform) = platform_text-plain input.adapter_type in
    let (plain_action, action) = action_text-plain input.action in
    let tail =
      input.customer_id
      ∷ input.executor_id
      ∷ input.account_id
      ∷ platform_text input.adapter_type
      ∷ action_text input.action
      ∷ input.purpose
      ∷ [] in
    ap read_parts (
      split_bar-join input.signal_id tail
        (h0, (h1, (h2, (h3, (plain_platform, (plain_action, (h6, tt))))))))
    ∙ (λ i. some (record input { adapter_type = platform i; action = action i }))
