-- ===== src/Tests/Chain.antt =====
-- A chain on which every derived address is the one channel and every digest is zero.
use tap.Base.{refl, ◌∷◌}
use tap.Chain.Pda.{Solana}
use tap.Tests.Parties.{Party, channel, session, zeros_31}

abbrev pub chain : Solana Party
chain = record {
  find_program_address = λ _ _. (channel, 255);
  sha256 = λ _. 0 ∷ zeros_31;
  length-sha256 = λ _. refl;
  program_id = channel;
  usdc_mint_devnet = session;
  system_program_id = channel;
  token_program_id = channel;
  associated_token_program_id = channel;
  rent_sysvar = channel;
  instructions_sysvar = channel;
  ed25519_program_id = channel;
}
