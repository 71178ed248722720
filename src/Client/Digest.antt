-- ===== src/Client/Digest.antt =====
-- cmd/testpay/main.go and internal/settler/settler.go: the digest that is signed is the one that is
-- verified.
use xpay_server.Base.{
  ◌≡◌, pos, length, Str, str_beq, ◌++◌, List, codes, some, lookup, refl, ◌∷◌, str_eq, arith, [],
  Option, ok, All,
}
use xpay_server.Settler.Authorization.{Ethereum}
use xpay_server.Types.{TransferAuthorization}
use xpay_server.Config.{Config}
use xpay_server.Client.Eip712.{
  IsEthereum, IsBytes, encode_value, Member, struct_hash, encode_type, HashesStructs,
}
use xpay_server.Client.Sign.{Transfer, domain_type, transfer_type, client_digest}
use xpay_server.Client.AbiLaws.{concat, length-padded_addr, copy_at-word, encode_abi-words}
use xpay_server.Client.Abi.{padded_addr}
use xpay_server.Settler.Signature.{
  Fields, text, number, field, typed_data, TypedData, eip712_digest,
}
use xpay_server.Client.Encodes.{
  IsWord, word_of, Encodes, struct_hash_lem, length-word_of, padded_big_word, with_word,
  encode_value-uint256, encode_value-string, encode_value-address, done, encode_value-bytes32,
}

-- The client's view of an authorization for a server set up by `cfg`.
abbrev pub transfer_of : Ethereum → Config → TransferAuthorization → Transfer
transfer_of eth cfg auth = record {
  from = auth.from;
  to = auth.to;
  value = auth.value;
  valid_before = auth.valid_before;
  nonce = auth.nonce;
  name = cfg.usdc_name;
  version = cfg.usdc_version;
  chain_id = cfg.chain_id;
  usdc = eth.hex_to_address cfg.usdc_address;
}

-- An authorization of the shape that the client makes.
pub record IsSignable (auth : TransferAuthorization) : Type 0 where
  pub from_size : length auth.from ≡ 20
  pub to_size : length auth.to ≡ 20
  pub value_word : IsWord auth.value
  pub after_zero : auth.valid_after ≡ pos 0
  pub before_word : IsWord auth.valid_before
  pub nonce_size : length auth.nonce ≡ 32
  pub nonce_bytes : IsBytes auth.nonce

module _ (eth : Ethereum) (laws : IsEthereum eth) where
  -- `typed_data` has the standard's value at the domain and at the message.
  module _ (hash_struct : TypedData → Str → Fields → Option Str) (cfg : Config)
      (auth : TransferAuthorization) (chain : IsWord cfg.chain_id) (h : IsSignable auth) where
    abbrev pub domain_words : List Str
    domain_words =
        eth.keccak256 cfg.usdc_name
        ∷ eth.keccak256 cfg.usdc_version
        ∷ word_of cfg.chain_id
        ∷ padded_addr (eth.hex_to_address cfg.usdc_address)
        ∷ []

    abbrev pub message_words : List Str
    message_words =
        padded_addr auth.from
        ∷ padded_addr auth.to
        ∷ word_of auth.value
        ∷ word_of (pos 0)
        ∷ word_of auth.valid_before
        ∷ auth.nonce
        ∷ []

    abbrev pub domain_hash : Str
    domain_hash = eth.keccak256 (concat (eth.keccak256 domain_type ∷ domain_words))

    abbrev pub message_hash : Str
    message_hash = eth.keccak256 (concat (eth.keccak256 transfer_type ∷ message_words))

    abbrev pub digest : Str
    digest = eth.keccak256 (0x19 ∷ 0x01 ∷ (domain_hash ++ message_hash))

    abbrev domain_members : List Member
    domain_members =
        field "name" "string"
        ∷ field "version" "string"
        ∷ field "chainId" "uint256"
        ∷ field "verifyingContract" "address"
        ∷ []

    domain-Encodes :
        Encodes eth laws (typed_data eth hash_struct auth cfg).domain domain_members domain_words
    unfolding typed_data lookup str_beq
    domain-Encodes =
        with_word (text cfg.usdc_name) refl (encode_value-string eth laws cfg.usdc_name) (
          with_word (text cfg.usdc_version) refl (encode_value-string eth laws cfg.usdc_version) (
            with_word (number cfg.chain_id) refl (encode_value-uint256 eth laws cfg.chain_id chain)
              (with_word (text (eth.address_hex (eth.hex_to_address cfg.usdc_address))) refl
                (encode_value-address eth laws (eth.hex_to_address cfg.usdc_address)
                  (laws.address_size cfg.usdc_address))
                done)))

    struct_hash-domain :
        struct_hash eth
          (typed_data eth hash_struct auth cfg)
          (codes "EIP712Domain")
          (typed_data eth hash_struct auth cfg).domain
        ≡ some domain_hash
    unfolding typed_data lookup str_beq encode_type
    struct_hash-domain =
        let td = typed_data eth hash_struct auth cfg in
        struct_hash_lem eth laws td (codes "EIP712Domain") td.domain refl (omega arith)
          domain-Encodes

    abbrev message_members : List Member
    message_members =
        field "from" "address"
        ∷ field "to" "address"
        ∷ field "value" "uint256"
        ∷ field "validAfter" "uint256"
        ∷ field "validBefore" "uint256"
        ∷ field "nonce" "bytes32"
        ∷ []

    message-Encodes :
        Encodes eth laws (typed_data eth hash_struct auth cfg).message message_members message_words
    unfolding typed_data lookup str_beq
    message-Encodes =
        let after : encode_value eth (codes "uint256") (number auth.valid_after)
            ≡ some (word_of (pos 0)) =
          rw h.after_zero (encode_value-uint256 eth laws (pos 0) (omega arith)) in
        with_word (text (eth.address_hex auth.from)) refl
          (encode_value-address eth laws auth.from h.from_size)
          (with_word (text (eth.address_hex auth.to)) refl
            (encode_value-address eth laws auth.to h.to_size)
            (with_word (number auth.value) refl
              (encode_value-uint256 eth laws auth.value h.value_word)
              (with_word (number auth.valid_after) refl after (
                with_word (number auth.valid_before) refl
                  (encode_value-uint256 eth laws auth.valid_before h.before_word)
                  (with_word (text (eth.hex_encode auth.nonce)) refl
                    (encode_value-bytes32 eth laws auth.nonce h.nonce_size h.nonce_bytes) done)))))

    struct_hash-message :
        struct_hash eth
          (typed_data eth hash_struct auth cfg)
          (codes "TransferWithAuthorization")
          (typed_data eth hash_struct auth cfg).message
        ≡ some message_hash
    unfolding typed_data lookup str_beq encode_type
    struct_hash-message =
        let td = typed_data eth hash_struct auth cfg in
        struct_hash_lem eth laws td (codes "TransferWithAuthorization") td.message refl
          (omega arith) message-Encodes

    pub eip712_digest_lem :
        HashesStructs eth hash_struct → eip712_digest eth hash_struct auth cfg ≡ ok digest
    unfolding eip712_digest HashesStructs typed_data
    eip712_digest_lem standard =
        rw (standard _ _ _ _ struct_hash-domain, standard _ _ _ _ struct_hash-message) refl

    AreWords : List Str → Type 0
    AreWords words = All (λ p. length p ≡ 32) words

    domain-AreWords : AreWords (eth.keccak256 domain_type ∷ domain_words)
    unfolding AreWords
    domain-AreWords = (
      laws.hash_size domain_type,
      (
        laws.hash_size cfg.usdc_name,
        (
          laws.hash_size cfg.usdc_version,
          (
            length-word_of cfg.chain_id,
            (
              length-padded_addr (eth.hex_to_address cfg.usdc_address)
                  (laws.address_size cfg.usdc_address),
              tt,
            ),
          ),
        ),
      ),
    )

    message-AreWords : AreWords (eth.keccak256 transfer_type ∷ message_words)
    unfolding AreWords
    message-AreWords = (
      laws.hash_size transfer_type,
      (
        length-padded_addr auth.from h.from_size,
        (
          length-padded_addr auth.to h.to_size,
          (
            length-word_of auth.value,
            (length-word_of (pos 0), (length-word_of auth.valid_before, (h.nonce_size, tt))),
          ),
        ),
      ),
    )

    pub client_digest_lem : client_digest eth (transfer_of eth cfg auth) ≡ ok digest
    unfolding client_digest AreWords
    client_digest_lem =
        rw
          (
            client_digest,
            copy_at-word auth.nonce h.nonce_size,
            padded_big_word cfg.chain_id chain,
            encode_abi-words _ domain-AreWords,
            padded_big_word auth.value h.value_word,
            padded_big_word (pos 0) (omega arith),
            padded_big_word auth.valid_before h.before_word,
            encode_abi-words _ message-AreWords,
          )
          refl

    -- What the client hashes by hand for an authorization that it can make is what the server
    -- verifies the signature against, for a chain id of 256 bits, hashes and addresses as
    -- `IsEthereum` has them, and EIP-712 as the standard defines it.
    pub client_digest-eip712_digest :
        HashesStructs eth hash_struct
        → (d : Str) × (client_digest eth (transfer_of eth cfg auth) ≡ ok d)
          × (eip712_digest eth hash_struct auth cfg ≡ ok d)
    client_digest-eip712_digest standard = (digest, client_digest_lem, eip712_digest_lem standard)
