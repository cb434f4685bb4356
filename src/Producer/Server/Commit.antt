-- ===== src/Producer/Server/Commit.antt =====
-- What the endpoint `/commit` answers, against the verifier's specification.
use tap.Base.{ℕ, ◌≡◌, some, arith}
use tap.Base.Int.{ℤ}
use tap.Base.Text.{Text}
use tap.Base.Exceptions.{Exception, ok, err}
use tap.Base.Action.{◌>>=◌, ◌>>◌}
use tap.External.{Keys, Ed25519}
use tap.Json.{Wire}
use tap.Protocol.Commit.{SignedCommitment}
use tap.Protocol.Header.{decode_commitment}
use tap.Producer.Channel.{note_commit}
use tap.Producer.Verifier.Accepts.{Accepts, accept_commitment_complete}
use tap.Producer.Registry.{get}
use tap.Producer.Server.Host.{Host, store, find_channel, commit_endpoint}

module _ {K SK : Type 0} ⦃keys : Keys K⦄ (ed : Ed25519 SK) (wire : Wire) where
  open keys use {from_string}

  -- A commitment that decodes, for a registered channel that accepts it, is answered by 204; the
  -- channel then holds it, and nothing else of the host changes.
  pub commit_endpoint_stores :
      (now : ℤ) (x_tap_commit x_tap_channel : Text) (h : Host K) (signed : SignedCommitment K)
      (channel_id : K) (ref : ℕ)
      → decode_commitment wire x_tap_commit ≡ ok signed
      → from_string x_tap_channel ≡ some channel_id
      → get channel_id h.registry ≡ some ref
      → Accepts ed (h.heap ref) signed
      → commit_endpoint ed wire now x_tap_commit x_tap_channel h
        ≡ (ok 204, store ref (note_commit now signed (h.heap ref)) h)
  unfolding commit_endpoint find_channel ◌>>=◌ ◌>>◌
  commit_endpoint_stores now x_tap_commit x_tap_channel h signed channel_id ref d k g a =
      simp (d, k, g, accept_commitment_complete ed now (h.heap ref) signed a)

  -- A commitment that is not answered by 204 changes nothing.
  pub commit_endpoint_refuses :
      (now : ℤ) (x_tap_commit x_tap_channel : Text) (h : Host K) (e : Exception)
      → (commit_endpoint ed wire now x_tap_commit x_tap_channel h).0 ≡ err e
      → (commit_endpoint ed wire now x_tap_commit x_tap_channel h).1 ≡ h
  unfolding commit_endpoint find_channel ◌>>=◌ ◌>>◌
  commit_endpoint_refuses now x_tap_commit x_tap_channel h e r = ground arith
