-- ===== src/Database/Json.antt =====
-- A JSON value, as `JSON.parse` gives it and as a `jsonb` column holds it. Numbers are only stored
-- and passed on, so their decimal text stands for them.
use mini_rewards_integration.Prelude.{String, Bool}

mutual
  pub data Json : Type 0 where
    null : Json
    bool : Bool → Json
    number : String → Json
    text : String → Json
    array : Items → Json
    object : Fields → Json

  pub data Items : Type 0 where
    nil : Items
    cons : Json → Items → Items

  pub data Fields : Type 0 where
    end : Fields
    field : String → Json → Fields → Fields
