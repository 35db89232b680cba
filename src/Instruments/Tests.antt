-- ===== src/Instruments/Tests.antt =====
-- An instance for the selection of instruments.
use agent_pay.Prelude.{codes, none, some, List, [], ◌∷◌}
use agent_pay.Instruments.{PaymentInstrument, InstrumentStatus, InstrumentType, Need, select}
use agent_pay.Instruments.Selection.{Chosen, select-Chosen}

abbrev wallet_in : InstrumentStatus → PaymentInstrument
wallet_in status = record {
  instrument_id = codes "w1";
  account_id = codes "a1";
  instrument_type = InstrumentType.wallet;
  currency = codes "usd";
  status = status;
  merchant_domains = codes "shop.com" ∷ [];
  provider_reference = none;
}

abbrev need : Need
need = record {
  account_id = codes "a1";
  currency = codes "USD";
  merchant_domain = some (codes "shop.com");
}

abbrev instruments : List PaymentInstrument
instruments = wallet_in InstrumentStatus.suspended ∷ wallet_in InstrumentStatus.active ∷ []

select-Chosen_example : Chosen need instruments (select need instruments)
select-Chosen_example = select-Chosen need instruments
