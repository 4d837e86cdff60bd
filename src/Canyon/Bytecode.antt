-- ===== src/Canyon/Bytecode.antt =====
-- The bytecode of crates/op-evm/src/block/canyon.rs, kept as words of 32 bytes.
use seismic_evm.Prelude.{ℕ, zero, suc, ◌/◌, ◌%◌, List, [], ◌∷◌}
use seismic_evm.Types.{Bytes}

-- The last `count` bytes of a number, with the most significant one first, before other bytes.
unfoldable pub big_endian : (count : ℕ) → ℕ → Bytes → Bytes
big_endian zero n rest = rest
big_endian (suc count) n rest = big_endian count (n / 256) ((n % 256) ∷ rest)

unfoldable pub bytes_of_words : List ℕ → Bytes → Bytes
unfolding big_endian
bytes_of_words [] rest = rest
bytes_of_words (w ∷ ws) rest = big_endian 32 w (bytes_of_words ws rest)

abbrev deployer_words : List ℕ
deployer_words =
    0x6080604052600436106100435760003560e01c8063076c37b21461004f578063
    ∷ 0x481286e61461007157806356299481146100ba57806366cfa057146100da5760
    ∷ 0x0080fd5b3661004a57005b600080fd5b34801561005b57600080fd5b5061006f
    ∷ 0x61006a366004610327565b6100fa565b005b34801561007d57600080fd5b5061
    ∷ 0x009161008c366004610327565b61014a565b60405173ffffffffffffffffffff
    ∷ 0xffffffffffffffffffff909116815260200160405180910390f35b3480156100
    ∷ 0xc657600080fd5b506100916100d5366004610349565b61015d565b3480156100
    ∷ 0xe657600080fd5b5061006f6100f53660046103ca565b610172565b6101458282
    ∷ 0x6040518060200161010f9061031a565b7fffffffffffffffffffffffffffffff
    ∷ 0xffffffffffffffffffffffffffffffffe082820381018352601f909101166040
    ∷ 0x52610183565b505050565b600061015683836102e7565b9392505050565b6000
    ∷ 0x61016a8484846102f0565b949350505050565b61017d838383610183565b5050
    ∷ 0x5050565b6000834710156101f4576040517f08c379a000000000000000000000
    ∷ 0x000000000000000000000000000000000000815260206004820152601d602482
    ∷ 0x01527f437265617465323a20696e73756666696369656e742062616c616e6365
    ∷ 0x00000060448201526064015b60405180910390fd5b815160000361025f576040
    ∷ 0x517f08c379a00000000000000000000000000000000000000000000000000000
    ∷ 0x0000815260206004820181905260248201527f437265617465323a2062797465
    ∷ 0x636f6465206c656e677468206973207a65726f60448201526064016101eb565b
    ∷ 0x8282516020840186f5905073ffffffffffffffffffffffffffffffffffffffff
    ∷ 0x8116610156576040517f08c379a0000000000000000000000000000000000000
    ∷ 0x00000000000000000000815260206004820152601960248201527f4372656174
    ∷ 0x65323a204661696c6564206f6e206465706c6f79000000000000006044820152
    ∷ 0x6064016101eb565b60006101568383305b600060405183604082015284602082
    ∷ 0x0152828152600b8101905060ff815360559020949350505050565b61014e8061
    ∷ 0x04ad83390190565b6000806040838503121561033a57600080fd5b5050803592
    ∷ 0x6020909101359150565b60008060006060848603121561035e57600080fd5b83
    ∷ 0x35925060208401359150604084013573ffffffffffffffffffffffffffffffff
    ∷ 0xffffffff8116811461039057600080fd5b809150509250925092565b7f4e487b
    ∷ 0x7100000000000000000000000000000000000000000000000000000000600052
    ∷ 0x604160045260246000fd5b6000806000606084860312156103df57600080fd5b
    ∷ 0x8335925060208401359150604084013567ffffffffffffffff80821115610405
    ∷ 0x57600080fd5b818601915086601f83011261041957600080fd5b813581811115
    ∷ 0x61042b5761042b61039b565b604051601f82017fffffffffffffffffffffffff
    ∷ 0xffffffffffffffffffffffffffffffffffffffe0908116603f01168101908382
    ∷ 0x1181831017156104715761047161039b565b8160405282815289602084870101
    ∷ 0x111561048a57600080fd5b826020860160208301376000602084830101528095
    ∷ 0x505050505050925092509256fe608060405234801561001057600080fd5b5061
    ∷ 0x012e806100206000396000f3fe6080604052348015600f57600080fd5b506004
    ∷ 0x361060285760003560e01c8063249cb3fa14602d575b600080fd5b603c603836
    ∷ 0x600460b1565b604e565b60405190815260200160405180910390f35b60008281
    ∷ 0x526020818152604080832073ffffffffffffffffffffffffffffffffffffffff
    ∷ 0x8516845290915281205460ff16608857600060aa565b7fa2ef4600d742022d53
    ∷ 0x2d4747cb3547474667d6f13804902513b2ec01c848f4b45b9392505050565b60
    ∷ 0x00806040838503121560c357600080fd5b82359150602083013573ffffffffff
    ∷ 0xffffffffffffffffffffffffffffff8116811460ed57600080fd5b8091505092
    ∷ 0x5092905056fea26469706673582212205ffd4e6cede7d06a5daf93d48d0541fc
    ∷ 0x68189eeb16608c1999a82063b666eb1164736f6c63430008130033a264697066
    ∷ 0x7358221220fdc4a0fe96e3b21c108ca155438d37c9143fb01278a3c1d274948b ∷ []

-- `CREATE_2_DEPLOYER_BYTECODE`
unfoldable pub create_2_deployer_bytecode : Bytes
unfolding big_endian bytes_of_words
create_2_deployer_bytecode =
    bytes_of_words deployer_words (big_endian 16 0xad89c564ba64736f6c63430008130033 [])
